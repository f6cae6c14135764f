-- ===== src/App/Devices/Select.antt =====
-- What `select_opencl_gpu` of src/app/opencl_devices.cpp selects.
use adaptive_fpga.Prelude.{
  ℕ, ◌≡◌, ◌≢◌, Bool, true, false, List, [], ◌∷◌, ◌++◌, Option, none, some, ◌⊎◌, All, map, ◌&&◌,
}
use adaptive_fpga.App.Devices.{
  Text, OpenclDeviceInfo, Discovery, discovered, discovery_failed, Choice, chosen, no_opencl,
  no_platform, no_gpu, index_not_found, no_name_contains, name_ambiguous, cannot_discover, is_gpu,
  filter, name_matches,
}
use adaptive_fpga.App.Devices.Names.{Within}

abbrev pub IsIn : OpenclDeviceInfo → List OpenclDeviceInfo → Type 0
IsIn d [] = ⊥
IsIn d (e ∷ es) = (d ≡ e) ⊎ IsIn d es

-- A device with an index among the GPUs.
abbrev pub IsGpu : OpenclDeviceInfo → Type 0
IsGpu d = (i : ℕ) × (d.gpu_index ≡ some i)

-- A GPU whose name contains the wanted name, both in lower case.
abbrev pub IsNamed : (ℕ → ℕ) → Text → OpenclDeviceInfo → Type 0
IsNamed tolower name d = IsGpu d × Within (map tolower name) (map tolower d.fields.name)

-- The device stands in the list with the property, and every device before it is without.
abbrev pub IsFirst :
    (OpenclDeviceInfo → Type 0)
    → List OpenclDeviceInfo
    → OpenclDeviceInfo
    → List OpenclDeviceInfo
    → Type 0
IsFirst P infos d after =
    (before : List OpenclDeviceInfo) × (infos ≡ before ++ (d ∷ after))
    × P d
    × All (λ e. ¬ (P e)) before

-- How a device is chosen: by its index, as the first GPU, or as the only one of the name.
abbrev pub ChosenBy :
    (ℕ → ℕ) → Option ℕ → Option Text → List OpenclDeviceInfo → OpenclDeviceInfo → Type 0
ChosenBy tolower (some index) name infos d = IsIn d infos × (d.gpu_index ≡ some index)
ChosenBy tolower none none infos d = (after : List OpenclDeviceInfo) × IsFirst IsGpu infos d after
ChosenBy tolower none (some name) infos d =
    (after : List OpenclDeviceInfo) × IsFirst (IsNamed tolower name) infos d after
    × All (λ e. ¬ (IsNamed tolower name e)) after

abbrev pub NoIndex : Option ℕ → List OpenclDeviceInfo → Type 0
NoIndex (some index) infos = All (λ e. e.gpu_index ≢ some index) infos
NoIndex none infos = ⊥

abbrev pub NoName : (ℕ → ℕ) → Option ℕ → Option Text → List OpenclDeviceInfo → Type 0
NoName tolower none (some name) infos = All (λ e. ¬ (IsNamed tolower name e)) infos
NoName tolower none none infos = ⊥
NoName tolower (some index) name infos = ⊥

-- What a choice says of the devices of the discovery.
abbrev pub Answers : (ℕ → ℕ) → Option ℕ → Option Text → List OpenclDeviceInfo → Choice → Type 0
Answers tolower index name infos (chosen d) = ChosenBy tolower index name infos d
Answers tolower index name infos no_gpu = All (λ e. ¬ (IsGpu e)) infos
Answers tolower index name infos index_not_found = NoIndex index infos
Answers tolower index name infos no_name_contains = NoName tolower index name infos
Answers tolower index name infos name_ambiguous = Unit {0}
Answers tolower index name infos no_opencl = Unit {0}
Answers tolower index name infos no_platform = Unit {0}
Answers tolower index name infos (cannot_discover error) = Unit {0}

-- A test that decides a property.
abbrev Decides : (OpenclDeviceInfo → Bool) → (OpenclDeviceInfo → Type 0) → Type 0
Decides test P = (d : OpenclDeviceInfo) → (test d ≡ true → P d) × (test d ≡ false → ¬ (P d))

-- What a filtered list shows of the list.
abbrev Filtered :
    (OpenclDeviceInfo → Type 0)
    → (OpenclDeviceInfo → Bool)
    → List OpenclDeviceInfo
    → List OpenclDeviceInfo
    → Type 0
Filtered P test infos [] = All (λ e. ¬ (P e)) infos
Filtered P test infos (d ∷ ds) =
    (after : List OpenclDeviceInfo) × IsFirst P infos d after × (filter test after ≡ ds)

-- A GPU by the name, in one test.
abbrev is_named : (ℕ → ℕ) → Text → OpenclDeviceInfo → Bool
is_named tolower name d = is_gpu d.gpu_index && name_matches tolower name d

-- The devices that a discovery reports.
abbrev pub reported : Discovery → List OpenclDeviceInfo
reported (discovered found infos) = infos
reported (discovery_failed error) = []
