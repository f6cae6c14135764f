-- ===== src/App/Devices.antt =====
-- include/app/opencl_devices.hpp and src/app/opencl_devices.cpp: the discovery of OpenCL devices and the
-- choice of a GPU. What OpenCL answers is the data that the discovery reads; a string is its characters,
-- and `tolower` is a parameter. GPUs are counted without the wrap at 2^32 of them.
pub mod Names
pub mod Numbering
pub mod Select
mod Tests
use adaptive_fpga.Prelude.{
  ℕ, zero, suc, ◌+◌, ◌/◌, ◌%◌, Bool, true, false, not, ◌&&◌, ◌||◌, List, [], ◌∷◌, ◌++◌, map, Option,
  none, some, ◌==◌, if◌then◌else◌,
}
use adaptive_fpga.Prelude.Int.{ℤ}

abbrev pub Text : Type 0
Text = List ℕ

pub record DeviceFields : Type 0 where
  pub platform_name : Text
  pub platform_vendor : Text
  pub platform_version : Text
  pub name : Text
  pub vendor : Text
  pub version : Text
  pub global_memory_bytes : ℕ
  pub max_compute_units : ℕ

-- A device as OpenCL describes it: the type is a set of flags.
pub record Device : Type 0 where
  pub type : ℕ
  pub fields : DeviceFields

-- What the two queries for a platform's devices answer.
pub data DeviceAnswer : Type 0 where
  no_devices devices_not_retrieved : DeviceAnswer
  devices_failed : ℤ → DeviceAnswer
  devices : List Device → DeviceAnswer

-- What the two queries for the platforms answer.
pub data PlatformAnswer : Type 0 where
  no_platforms platforms_not_retrieved : PlatformAnswer
  platforms_failed : ℤ → PlatformAnswer
  platforms : List DeviceAnswer → PlatformAnswer

pub data DeviceType : Type 0 where
  gpu cpu accelerator custom : DeviceType

-- The string of the types, as their list; it is "other" where that is empty.
pub record OpenclDeviceInfo : Type 0 where
  pub platform_index : ℕ
  pub device_index : ℕ
  pub gpu_index : Option ℕ
  pub types : List DeviceType
  pub fields : DeviceFields

pub data DiscoveryError : Type 0 where
  cannot_enumerate_platforms cannot_enumerate_devices : ℤ → DiscoveryError
  cannot_retrieve_platforms cannot_retrieve_devices : DiscoveryError

-- DiscoveryResult, or what is thrown.
pub data Discovery : Type 0 where
  discovered : Bool → List OpenclDeviceInfo → Discovery
  discovery_failed : DiscoveryError → Discovery

pub data Choice : Type 0 where
  chosen : OpenclDeviceInfo → Choice
  no_opencl no_platform no_gpu index_not_found no_name_contains name_ambiguous : Choice
  cannot_discover : DiscoveryError → Choice

-- CL_DEVICE_TYPE_CPU, GPU, ACCELERATOR and CUSTOM are 2, 4, 8 and 16.
unfoldable pub has_flag : ℕ → ℕ → Bool
has_flag type flag = type / flag % 2 == 1

unfoldable pub one_type : Bool → DeviceType → List DeviceType
one_type true t = t ∷ []
one_type false t = []

unfoldable pub device_type_name : ℕ → List DeviceType
unfolding has_flag one_type
device_type_name type =
    one_type (has_flag type 4) gpu
    ++ one_type (has_flag type 2) cpu
    ++ one_type (has_flag type 8) accelerator
    ++ one_type (has_flag type 16) custom

-- The index of a GPU, and the number of GPUs after the device.
unfoldable pub number : Bool → ℕ → Option ℕ × ℕ
number true next = (some next, next + 1)
number false next = (none, next)

-- The loop over one platform's devices, with `next_gpu_index`.
unfoldable pub read_devices : ℕ → ℕ → ℕ → List Device → List OpenclDeviceInfo × ℕ
unfolding number has_flag device_type_name
read_devices platform index next [] = ([], next)
read_devices platform index next (device ∷ rest) =
    let numbered = number (has_flag device.type 4) next in
    let others = read_devices platform (index + 1) numbered.1 rest in
    (
      record {
        platform_index = platform;
        device_index = index;
        gpu_index = numbered.0;
        types = device_type_name device.type;
        fields = device.fields;
      }
          ∷ others.0,
      others.1,
    )

unfoldable pub join : List OpenclDeviceInfo → Discovery → Discovery
join infos (discovered found rest) = discovered found (infos ++ rest)
join infos (discovery_failed error) = discovery_failed error

-- The loop over the platforms.
unfoldable pub read_platforms : ℕ → ℕ → List DeviceAnswer → Discovery
unfolding read_devices join
read_platforms index next [] = discovered true []
read_platforms index next (no_devices ∷ answers) = read_platforms (index + 1) next answers
read_platforms index next (devices_failed status ∷ answers) =
    discovery_failed (cannot_enumerate_devices status)
read_platforms index next (devices_not_retrieved ∷ answers) =
    discovery_failed cannot_retrieve_devices
read_platforms index next (devices found ∷ answers) =
    join (read_devices index 0 next found).0
      (read_platforms (index + 1) (read_devices index 0 next found).1 answers)

unfoldable pub discover_opencl_devices : PlatformAnswer → Discovery
unfolding read_platforms
discover_opencl_devices no_platforms = discovered false []
discover_opencl_devices (platforms_failed status) =
    discovery_failed (cannot_enumerate_platforms status)
discover_opencl_devices platforms_not_retrieved = discovery_failed cannot_retrieve_platforms
discover_opencl_devices (platforms answers) = read_platforms 0 0 answers

-- `std::string::find` of one text in another.
unfoldable pub starts_with : Text → Text → Bool
starts_with [] text = true
starts_with (c ∷ wanted) [] = false
starts_with (c ∷ wanted) (d ∷ text) = (c == d) && starts_with wanted text

unfoldable pub contains : Text → Text → Bool
unfolding starts_with
contains wanted [] = starts_with wanted []
contains wanted (c ∷ text) = starts_with wanted (c ∷ text) || contains wanted text

unfoldable pub lower_case : (ℕ → ℕ) → Text → Text
lower_case tolower text = map tolower text

unfoldable pub is_gpu : Option ℕ → Bool
is_gpu (some index) = true
is_gpu none = false

unfoldable pub filter : (OpenclDeviceInfo → Bool) → List OpenclDeviceInfo → List OpenclDeviceInfo
filter test [] = []
filter test (d ∷ ds) = let rest = filter test ds in if test d then d ∷ rest else rest

unfoldable pub has_index : ℕ → Option ℕ → Bool
has_index index none = false
has_index index (some i) = i == index

-- The loop that looks for an explicit index.
unfoldable pub find_index : ℕ → List OpenclDeviceInfo → Choice
unfolding has_index
find_index index [] = index_not_found
find_index index (d ∷ ds) =
    let later = find_index index ds in if has_index index d.gpu_index then chosen d else later

unfoldable pub only : List OpenclDeviceInfo → Choice
only [] = no_name_contains
only (d ∷ []) = chosen d
only (d ∷ e ∷ ds) = name_ambiguous

unfoldable pub name_matches : (ℕ → ℕ) → Text → OpenclDeviceInfo → Bool
unfolding contains lower_case
name_matches tolower name d = contains (lower_case tolower name) (lower_case tolower d.fields.name)

unfoldable pub choose : (ℕ → ℕ) → Option ℕ → Option Text → List OpenclDeviceInfo → Choice
unfolding find_index only filter name_matches
choose tolower index name [] = no_gpu
choose tolower (some index) name (d ∷ ds) = find_index index (d ∷ ds)
choose tolower none none (d ∷ ds) = chosen d
choose tolower none (some name) (d ∷ ds) = only (filter (name_matches tolower name) (d ∷ ds))

unfoldable pub choose_discovered : (ℕ → ℕ) → Option ℕ → Option Text → Discovery → Choice
unfolding choose filter is_gpu
choose_discovered tolower index name (discovery_failed error) = cannot_discover error
choose_discovered tolower index name (discovered false infos) = no_platform
choose_discovered tolower index name (discovered true infos) =
    choose tolower index name (filter (λ d. is_gpu d.gpu_index) infos)

-- `built` is whether the build has OpenCL support.
unfoldable pub select_opencl_gpu : (ℕ → ℕ) → Bool → Option ℕ → Option Text → PlatformAnswer → Choice
unfolding choose_discovered discover_opencl_devices
select_opencl_gpu tolower false index name answer = no_opencl
select_opencl_gpu tolower true index name answer =
    choose_discovered tolower index name (discover_opencl_devices answer)
