-- ===== src/Imu/Launch.antt =====
-- src/imu/flpr_launch.c: the start of the coprocessor. The image is made by the build.
use moamoa_caterpillar_firmw.Base.{ℕ, Bool, true, List}
use moamoa_caterpillar_firmw.Flash.{Mem, patch}

abbrev pub flpr_exec_addr : ℕ
flpr_exec_addr = 0x20028000

-- The memory that the coprocessor executes from, and its registers.
pub record Vpr : Type 0 where
  pub sram : Mem
  pub secure : Bool
  pub initpc : ℕ
  pub cpurun : Bool

unfoldable pub flpr_launch : List ℕ → Vpr → Vpr
flpr_launch flpr_image v = record {
  sram = patch v.sram flpr_exec_addr flpr_image;
  secure = true;
  initpc = flpr_exec_addr;
  cpurun = true;
}
