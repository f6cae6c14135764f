-- ===== src/App/Devices/Numbering.antt =====
-- The GPU indices of src/app/opencl_devices.cpp.
use adaptive_fpga.Prelude.{
  ◌⊎◌, inl, inr, ◌/◌, ◌%◌, ℕ, zero, suc, ◌+◌, ◌≡◌, refl, sym, ◌∙◌, ap, arith, Bool, true, false,
  List, [], ◌∷◌, ◌++◌, Option, none, some, length, ap₂, length-append,
}
use adaptive_fpga.App.Devices.{
  OpenclDeviceInfo, Device, DeviceAnswer, no_devices, devices_failed, devices_not_retrieved,
  devices, PlatformAnswer, no_platforms, platforms_failed, platforms_not_retrieved, platforms,
  Discovery, discovered, discovery_failed, number, has_flag, read_devices, join, read_platforms,
  discover_opencl_devices,
}

abbrev prepend : Option ℕ → List ℕ → List ℕ
prepend (some i) is = i ∷ is
prepend none is = is

-- The indices given to GPUs, in the order of the report.
abbrev pub gpu_indices : List OpenclDeviceInfo → List ℕ
gpu_indices [] = []
gpu_indices (d ∷ ds) = prepend d.gpu_index (gpu_indices ds)

-- So many numbers from one on.
abbrev pub count_from : ℕ → ℕ → List ℕ
count_from start zero = []
count_from start (suc n) = start ∷ count_from (start + 1) n

-- The indices of a list are the numbers from `next` up to `after`.
abbrev Numbered : ℕ → ℕ → List ℕ → Type 0
Numbered next after indices =
    (indices ≡ count_from next (length indices)) × (after ≡ next + length indices)

read_devices-Numbered :
    (platform index next : ℕ) (found : List Device)
    → Numbered next
        (read_devices platform index next found).1
        (gpu_indices (read_devices platform index next found).0)
unfolding read_devices
read_devices-Numbered platform index next [] = (refl, omega arith)
read_devices-Numbered platform index next (device ∷ rest) =
    either (has_flag device.type 4) (λ n. read_devices-Numbered platform (index + 1) n rest)
  where
    either :
        (is : Bool)
        → ((n : ℕ)
            → Numbered n
                (read_devices platform (index + 1) n rest).1
                (gpu_indices (read_devices platform (index + 1) n rest).0))
        → Numbered next (read_devices platform (index + 1) (number is next).1 rest).1 (
            prepend
              (number is next).0
              (gpu_indices (read_devices platform (index + 1) (number is next).1 rest).0))
    either true h =
        unfold number in (ap (λ l. next ∷ l) (h (next + 1)).0, (h (next + 1)).1 ∙ omega arith)
    either false h = unfold number in h next

gpu_indices-append :
    (ds es : List OpenclDeviceInfo) → gpu_indices (ds ++ es) ≡ gpu_indices ds ++ gpu_indices es
gpu_indices-append [] es = refl
gpu_indices-append (d ∷ ds) es = either d.gpu_index (gpu_indices-append ds es)
  where
    either :
        (i : Option ℕ)
        → gpu_indices (ds ++ es) ≡ gpu_indices ds ++ gpu_indices es
        → prepend i (gpu_indices (ds ++ es)) ≡ prepend i (gpu_indices ds) ++ gpu_indices es
    either (some i) h = ap (λ l. i ∷ l) h
    either none h = h

count_from-append :
    (start m n : ℕ) → count_from start (m + n) ≡ count_from start m ++ count_from (start + m) n
count_from-append start zero n = ap₂ count_from (omega arith) (omega arith)
count_from-append start (suc m) n =
    ap (λ k. count_from start k) shape
    ∙ ap (λ l. start ∷ l)
        (count_from-append (start + 1) m n
          ∙ ap (λ k. count_from (start + 1) m ++ count_from k n) moved)
  where
    shape : suc m + n ≡ suc (m + n)
    shape = omega arith

    moved : start + 1 + m ≡ start + suc m
    moved = omega arith

abbrev pub NumberedFrom : ℕ → Discovery → Type 0
NumberedFrom next (discovered found infos) =
    gpu_indices infos ≡ count_from next (length (gpu_indices infos))
NumberedFrom next (discovery_failed error) = Unit {0}

join-NumberedFrom :
    (next after : ℕ) (infos : List OpenclDeviceInfo) (rest : Discovery)
    → Numbered next after (gpu_indices infos)
    → NumberedFrom after rest
    → NumberedFrom next (join infos rest)
unfolding join
join-NumberedFrom next after infos (discovered found more) n h =
    gpu_indices-append infos more
    ∙ ap₂ (λ l r. l ++ r) n.0 (h ∙ ap (λ k. count_from k (length (gpu_indices more))) n.1)
    ∙ sym (count_from-append next (length (gpu_indices infos)) (length (gpu_indices more)))
    ∙ ap (λ k. count_from next k)
        (sym (
          ap length (gpu_indices-append infos more)
          ∙ length-append (gpu_indices infos) (gpu_indices more)))
join-NumberedFrom next after infos (discovery_failed error) n h = tt

read_platforms-NumberedFrom :
    (index next : ℕ) (answers : List DeviceAnswer)
    → NumberedFrom next (read_platforms index next answers)
unfolding read_platforms
read_platforms-NumberedFrom index next [] = refl
read_platforms-NumberedFrom index next (no_devices ∷ answers) =
    read_platforms-NumberedFrom (index + 1) next answers
read_platforms-NumberedFrom index next (devices_failed status ∷ answers) = tt
read_platforms-NumberedFrom index next (devices_not_retrieved ∷ answers) = tt
read_platforms-NumberedFrom index next (devices found ∷ answers) =
    join-NumberedFrom next (read_devices index 0 next found).1 (read_devices index 0 next found).0
      (read_platforms (index + 1) (read_devices index 0 next found).1 answers)
      (read_devices-Numbered index 0 next found)
      (read_platforms-NumberedFrom (index + 1) (read_devices index 0 next found).1 answers)

-- The report of the devices, in their order: each has the fields that OpenCL gave, and those whose type has
-- the flag of a GPU, and no others, are numbered from one on.
abbrev pub Reports : ℕ → List Device → List OpenclDeviceInfo → Type 0
Reports next [] [] = Unit {0}
Reports next [] (info ∷ infos) = ⊥
Reports next (device ∷ ds) [] = ⊥
Reports next (device ∷ ds) (info ∷ infos) =
    (info.fields ≡ device.fields)
    × (((device.type / 4 % 2 ≡ 1) × (info.gpu_index ≡ some next) × Reports (next + 1) ds infos)
        ⊎ ((device.type / 4 % 2 ≡ 0) × (info.gpu_index ≡ none) × Reports next ds infos))

flag_on : (type : ℕ) → has_flag type 4 ≡ true → type / 4 % 2 ≡ 1
unfolding has_flag
flag_on type h = ground arith

flag_off : (type : ℕ) → has_flag type 4 ≡ false → type / 4 % 2 ≡ 0
unfolding has_flag
flag_off type h = ground arith

read_devices-Reports :
    (platform index next : ℕ) (found rest : List Device) (more : List OpenclDeviceInfo)
    → Reports (read_devices platform index next found).1 rest more
    → Reports next (found ++ rest) ((read_devices platform index next found).0 ++ more)
unfolding read_devices
read_devices-Reports platform index next [] rest more h = h
read_devices-Reports platform index next (device ∷ found) rest more h = (
  refl,
  either (has_flag device.type 4) refl h
      (λ n r. read_devices-Reports platform (index + 1) n found rest more r),
)
  where
    either :
        (b : Bool)
        → has_flag device.type 4 ≡ b
        → Reports (read_devices platform (index + 1) (number b next).1 found).1 rest more
        → ((n : ℕ)
            → Reports (read_devices platform (index + 1) n found).1 rest more
            → Reports n (found ++ rest) ((read_devices platform (index + 1) n found).0 ++ more))
        → (((device.type / 4 % 2 ≡ 1)
              × ((number b next).0 ≡ some next)
              × Reports
                  (next + 1)
                  (found ++ rest)
                  ((read_devices platform (index + 1) (number b next).1 found).0 ++ more))
            ⊎ ((device.type / 4 % 2 ≡ 0)
                × ((number b next).0 ≡ none)
                × Reports next
                    (found ++ rest)
                    ((read_devices platform (index + 1) (number b next).1 found).0 ++ more)))
    either true f h' later = unfold number in inl (flag_on device.type f, refl, later (next + 1) h')
    either false f h' later = unfold number in inr (flag_off device.type f, refl, later next h')

-- The devices that OpenCL listed, over all platforms.
abbrev listed_devices : List DeviceAnswer → List Device
listed_devices [] = []
listed_devices (devices found ∷ answers) = found ++ listed_devices answers
listed_devices (no_devices ∷ answers) = listed_devices answers
listed_devices (devices_failed status ∷ answers) = listed_devices answers
listed_devices (devices_not_retrieved ∷ answers) = listed_devices answers

abbrev pub listed : PlatformAnswer → List Device
listed (platforms answers) = listed_devices answers
listed _ = []

abbrev pub ReportsFrom : ℕ → List Device → Discovery → Type 0
ReportsFrom next ds (discovered found infos) = Reports next ds infos
ReportsFrom next ds (discovery_failed error) = Unit {0}

read_platforms-ReportsFrom :
    (index next : ℕ) (answers : List DeviceAnswer)
    → ReportsFrom next (listed_devices answers) (read_platforms index next answers)
unfolding read_platforms
read_platforms-ReportsFrom index next [] = tt
read_platforms-ReportsFrom index next (no_devices ∷ answers) =
    read_platforms-ReportsFrom (index + 1) next answers
read_platforms-ReportsFrom index next (devices_failed status ∷ answers) = tt
read_platforms-ReportsFrom index next (devices_not_retrieved ∷ answers) = tt
read_platforms-ReportsFrom index next (devices found ∷ answers) =
    joined (read_platforms (index + 1) (read_devices index 0 next found).1 answers)
      (read_platforms-ReportsFrom (index + 1) (read_devices index 0 next found).1 answers)
  where
    joined :
        (d : Discovery)
        → ReportsFrom (read_devices index 0 next found).1 (listed_devices answers) d
        → ReportsFrom next
            (found ++ listed_devices answers)
            (join (read_devices index 0 next found).0 d)
    joined (discovered f more) h =
        unfold join in read_devices-Reports index 0 next found (listed_devices answers) more h
    joined (discovery_failed error) h = unfold join in tt

-- A discovery that succeeds reports the devices that OpenCL lists, over all platforms and in their order, with
-- their fields. Those whose type has the flag of a GPU, and no others, have the indices 0, 1, 2 and so on in
-- that order, each once.
pub discover_opencl_devices_lem :
    (answer : PlatformAnswer)
    → ReportsFrom 0 (listed answer) (discover_opencl_devices answer)
      × NumberedFrom 0 (discover_opencl_devices answer)
unfolding discover_opencl_devices
discover_opencl_devices_lem no_platforms = (tt, refl)
discover_opencl_devices_lem (platforms_failed status) = (tt, tt)
discover_opencl_devices_lem platforms_not_retrieved = (tt, tt)
discover_opencl_devices_lem (platforms answers) =
    (read_platforms-ReportsFrom 0 0 answers, read_platforms-NumberedFrom 0 0 answers)
