-- ===== src/Instructions/Ticks.antt =====
-- `proc_runtime_block` of src/runtime/proc_runtime_instructions_FreeRTOS.c: waiting for a condition on a clock of
-- ticks, a `TickType_t` of 32 bits that wraps around.
use csp_proc.Common.{
  ℕ, zero, suc, ◌+◌, ◌%◌, ◌^◌, ◌<◌, ◌≤◌, Bool, true, false, Option, none, some, ltb, if◌then◌else◌,
  ◌≡◌, refl, arith, le→ltb,
}
use csp_proc.Types.{Instruction}
use csp_proc.Runtime.{Flag, flag_true, flag_err}
use csp_proc.Instructions.Block.{condition_of}

-- `xTaskGetTickCount`, `vTaskDelay` for MIN_PROC_BLOCK_PERIOD_MS, and MAX_PROC_BLOCK_TIMEOUT_MS in ticks.
pub record Ticker (W : Type 0) : Type 0 where
  pub tick_count : W → ℕ
  pub delay : W → W
  pub timeout_ticks : ℕ

module _ {W : Type 0} (clock : Ticker W) (proc_runtime_ifelse : Instruction → W → Flag × W) where
  -- The `while` loop, of at most `fuel` rounds: `none` if they are not enough, `false` for `return -1`.
  unfoldable pub tick_loop : ℕ → ℕ → Instruction → W → Option (Bool × W)
  tick_loop zero timeout_tick condition w = none
  tick_loop (suc fuel) timeout_tick condition w = elim (ltb (clock.tick_count w) timeout_tick) [
    | false ↦ some (true, w)
    | true ↦ elim (proc_runtime_ifelse condition w).0 [
      | flag_err ↦ some (false, (proc_runtime_ifelse condition w).1)
      | flag_true ↦ some (true, (proc_runtime_ifelse condition w).1)
      | _ ↦ tick_loop fuel timeout_tick condition (clock.delay (proc_runtime_ifelse condition w).1)
    ]
  ]

  abbrev after_ticks : ℕ → Option (Bool × W) → Option (ℕ × W)
  after_ticks timeout_tick none = none
  after_ticks timeout_tick (some (false, w)) = some (1, w)
  after_ticks timeout_tick (some (true, w)) =
      some (if ltb (clock.tick_count w) timeout_tick then 0 else 1, w)

  wait_ticks : ℕ → Option Instruction → W → Option (ℕ × W)
  wait_ticks fuel none w = some (1, w)
  wait_ticks fuel (some condition) w =
      let timeout_tick = (clock.tick_count w + clock.timeout_ticks) % 2 ^ 32 in
      after_ticks timeout_tick (tick_loop fuel timeout_tick condition w)

  -- `proc_runtime_block` of the FreeRTOS file.
  unfoldable pub block_with_ticks : ℕ → Instruction → W → Option (ℕ × W)
  unfolding wait_ticks tick_loop
  block_with_ticks fuel ins w = wait_ticks fuel (condition_of ins) w

  wait_ticks-wraps :
      (fuel : ℕ) (o : Option Instruction) (w : W)
      → clock.tick_count w < 2 ^ 32
      → clock.timeout_ticks < 2 ^ 32
      → 2 ^ 32 ≤ clock.tick_count w + clock.timeout_ticks
      → wait_ticks (suc fuel) o w ≡ some (1, w)
  unfolding wait_ticks tick_loop
  wait_ticks-wraps fuel none w small short wraps = refl
  wait_ticks-wraps fuel (some condition) w small short wraps =
      let passed : ltb (clock.tick_count w) ((clock.tick_count w + clock.timeout_ticks) % 2 ^ 32)
          ≡ false =
        le→ltb _ _ (omega (arith, small, short, wraps)) in
      rw (tick_loop, passed, passed) refl

  -- A block instruction that starts when the tick count is within the timeout of its wrap-around fails at once,
  -- as if the timeout had passed: its condition is never tested.
  pub block_with_ticks-wraps :
      (fuel : ℕ) (ins : Instruction) (w : W)
      → clock.tick_count w < 2 ^ 32
      → clock.timeout_ticks < 2 ^ 32
      → 2 ^ 32 ≤ clock.tick_count w + clock.timeout_ticks
      → block_with_ticks (suc fuel) ins w ≡ some (1, w)
  unfolding block_with_ticks
  block_with_ticks-wraps fuel ins w small short wraps =
      wait_ticks-wraps fuel (condition_of ins) w small short wraps
