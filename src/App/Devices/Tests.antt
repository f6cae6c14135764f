-- ===== src/App/Devices/Tests.antt =====
-- Two platforms with a CPU and two GPUs.
use adaptive_fpga.Prelude.{ℕ, ◌≡◌, refl, true, [], ◌∷◌, none, some}
use adaptive_fpga.App.Devices.{
  Text, Device, PlatformAnswer, platforms, devices, no_devices, discover_opencl_devices,
  select_opencl_gpu, name_ambiguous,
}
use adaptive_fpga.App.Devices.Numbering.{
  NumberedFrom, ReportsFrom, listed, discover_opencl_devices_lem,
}

abbrev device : ℕ → Text → Device
device type name = record {
  type = type;
  fields = record {
    platform_name = [];
    platform_vendor = [];
    platform_version = [];
    name = name;
    vendor = [];
    version = [];
    global_memory_bytes = 1_000;
    max_compute_units = 8;
  };
}

abbrev host : PlatformAnswer
host = platforms (
    devices (device 2 (99 ∷ []) ∷ device 4 (97 ∷ 98 ∷ []) ∷ [])
    ∷ no_devices
    ∷ devices (device 4 (97 ∷ []) ∷ [])
    ∷ [])

keep : ℕ → ℕ
keep c = c

-- "a" is in the name of both GPUs, "b" of the first only.
ambiguous : select_opencl_gpu keep true none (some (97 ∷ [])) host ≡ name_ambiguous
unfolding select_opencl_gpu keep
ambiguous = refl

discover_opencl_devices_lem_example :
    ReportsFrom 0 (listed host) (discover_opencl_devices host)
    × NumberedFrom 0 (discover_opencl_devices host)
discover_opencl_devices_lem_example = discover_opencl_devices_lem host
