-- ===== src/Instructions/Block.antt =====
-- `proc_runtime_block` of src/runtime/proc_runtime_instructions_POSIX.c: waiting for a condition. The clock, the
-- sleep and the if-else instruction that tests the condition are parameters.
use csp_proc.Common.{
  ℕ, zero, suc, ◌+◌, ◌*◌, ◌<◌, ◌≤◌, Bool, true, false, ◌&&◌, ◌||◌, Option, none, some, ltb, ◌==◌,
  if◌then◌else◌, ◌≡◌, ◌≢◌, refl, arith, Bool-cases, inl, inr,
}
use csp_proc.Types.{block, ifelse, Instruction}
use csp_proc.Runtime.{Flag, flag_true, flag_err}

-- `struct timespec`
pub record Time : Type 0 where
  pub tv_sec : ℕ
  pub tv_nsec : ℕ

-- `clock_gettime`, which may fail; what `timeout` holds if the first call does; `nanosleep` for 250 ms.
pub record Clock (W : Type 0) : Type 0 where
  pub clock_gettime : W → Option Time
  pub unset : Time
  pub nanosleep : W → W

abbrev pub is_before : Time → Time → Bool
is_before a b = ltb a.tv_sec b.tv_sec || ((a.tv_sec == b.tv_sec) && ltb a.tv_nsec b.tv_nsec)

-- MAX_PROC_BLOCK_TIMEOUT_MS is 5000000: 5000 seconds and no rest.
abbrev pub timeout_from : Time → Option Time → Time
timeout_from unset none = record { tv_sec = unset.tv_sec + 5000; tv_nsec = unset.tv_nsec }
timeout_from unset (some now) = record { tv_sec = now.tv_sec + 5000; tv_nsec = now.tv_nsec }

-- The temporary if-else instruction.
abbrev pub condition_of : Instruction → Option Instruction
condition_of ins = elim ins.payload [
  | block a op b ↦ some (record { node = ins.node; payload = ifelse a op b })
  | _ ↦ none
]

-- What the clock shows, in nanoseconds.
abbrev pub nanoseconds : Time → ℕ
nanoseconds t = t.tv_sec * 1000000000 + t.tv_nsec

not_before :
    (a b : Time)
    → a.tv_nsec < 1000000000
    → b.tv_nsec < 1000000000
    → nanoseconds b ≤ nanoseconds a
    → is_before a b ≡ false
not_before a b ha hb h = ground arith

module _ {W : Type 0} (clock : Clock W) (proc_runtime_ifelse : Instruction → W → Flag × W) where
  -- The `while` loop, of at most `fuel` rounds: `none` if they are not enough, `false` for `return -1`.
  unfoldable pub block_loop : ℕ → Time → Instruction → W → Option (Bool × W)
  block_loop zero timeout condition w = none
  block_loop (suc fuel) timeout condition w = elim (clock.clock_gettime w) [
    | none ↦ some (true, w)
    | some now ↦ elim (is_before now timeout) [
      | false ↦ some (true, w)
      | true ↦ elim (proc_runtime_ifelse condition w).0 [
        | flag_err ↦ some (false, (proc_runtime_ifelse condition w).1)
        | flag_true ↦ some (true, (proc_runtime_ifelse condition w).1)
        | _ ↦
            block_loop fuel timeout condition (clock.nanosleep (proc_runtime_ifelse condition w).1)
      ]
    ]
  ]

  -- The second look at the clock; a return code n stands for -n.
  abbrev after_loop : Time → Option (Bool × W) → Option (ℕ × W)
  after_loop timeout none = none
  after_loop timeout (some (false, w)) = some (1, w)
  after_loop timeout (some (true, w)) = elim (clock.clock_gettime w) [
    | none ↦ some (0, w)
    | some now ↦ some (if is_before now timeout then 0 else 1, w)
  ]

  wait_for : ℕ → Option Instruction → W → Option (ℕ × W)
  wait_for fuel none w = some (1, w)
  wait_for fuel (some condition) w =
      let timeout = timeout_from clock.unset (clock.clock_gettime w) in
      after_loop timeout (block_loop fuel timeout condition w)

  unfoldable pub proc_runtime_block : ℕ → Instruction → W → Option (ℕ × W)
  unfolding wait_for block_loop
  proc_runtime_block fuel ins w = wait_for fuel (condition_of ins) w

  -- A clock that never fails, that the condition's test does not turn back, and that a sleep moves forward by
  -- 250 ms at least.
  pub record IsTicking (read : W → Time) : Type 0 where
    pub works : (w : W) → clock.clock_gettime w ≡ some (read w)
    pub normal : (w : W) → (read w).tv_nsec < 1000000000
    pub tests :
        (ins : Instruction) (w : W)
        → nanoseconds (read w) ≤ nanoseconds (read (proc_runtime_ifelse ins w).1)
    pub sleeps : (w : W) → nanoseconds (read w) + 250000000 ≤ nanoseconds (read (clock.nanosleep w))

  module _ (read : W → Time) (ticking : IsTicking read) where
    after_test-ends :
        (flag : Flag) (w : W) (rest : Option (Bool × W))
        → rest ≢ none
        → ¬ (
            elim flag as (λ f. Option (Bool × W)) [
              | flag_err ↦ some (false, w)
              | flag_true ↦ some (true, w)
              | _ ↦ rest
            ]
            ≡ none)
    after_test-ends flag w rest h e = grind arith

    block_loop-ends :
        (k : ℕ) (timeout : Time) (condition : Instruction) (w : W)
        → timeout.tv_nsec < 1000000000
        → nanoseconds timeout ≤ nanoseconds (read w) + 250000000 * k
        → block_loop (suc k) timeout condition w ≢ none
    unfolding block_loop
    block_loop-ends zero timeout condition w h b e =
        let late = not_before (read w) timeout (ticking.normal w) h (omega (arith, b)) in
        absurd (let f = rw (block_loop, ticking.works w, late) at e in cc)
    block_loop-ends (suc k) timeout condition w h b e =
        elim (Bool-cases (is_before (read w) timeout)) [
          | inr late ↦ absurd (let f = rw (block_loop, ticking.works w, late) at e in cc)
          | inl early ↦
              let next = (proc_runtime_ifelse condition w).1 in
              let later =
                block_loop-ends k timeout condition (clock.nanosleep next) h
                  (omega (arith, b, ticking.tests condition w, ticking.sleeps next)) in
              after_test-ends (proc_runtime_ifelse condition w).0 next
                (block_loop (suc k) timeout condition (clock.nanosleep next)) later
                (rw (block_loop, ticking.works w, early) at e)
        ]

    after_loop-ends :
        (timeout : Time) (o : Option (Bool × W))
        → o ≢ none
        → (r : ℕ × W) × (after_loop timeout o ≡ some r)
    after_loop-ends timeout none h = absurd (h refl)
    after_loop-ends timeout (some (false, w)) h = (_, refl)
    after_loop-ends timeout (some (true, w)) h =
        ((if is_before (read w) timeout then 0 else 1, w), rw (after_loop, ticking.works w) refl)

    wait_for-ends : (o : Option Instruction) (w : W) → (r : ℕ × W) × (wait_for 20001 o w ≡ some r)
    unfolding wait_for
    wait_for-ends none w = (_, refl)
    wait_for-ends (some condition) w =
        let timeout = timeout_from clock.unset (clock.clock_gettime w) in
        let same : timeout ≡ timeout_from clock.unset (some (read w)) = rw (ticking.works w) refl in
        let normal : timeout.tv_nsec < 1000000000 = rw same (ticking.normal w) in
        let near : nanoseconds timeout ≤ nanoseconds (read w) + 250000000 * 20000 =
          rw same (omega arith) in
        after_loop-ends timeout (block_loop 20001 timeout condition w)
          (block_loop-ends 20000 timeout condition w normal near)

    -- A block instruction comes to its end, whatever its condition does, in at most 20001 rounds of its
    -- loop: 5000 seconds, in steps of 250 ms. The clock must not fail, nor be turned back by a test of the
    -- condition, and a sleep must move it forward by 250 ms at least.
    pub proc_runtime_block-ends :
        (ins : Instruction) (w : W) → (r : ℕ × W) × (proc_runtime_block 20001 ins w ≡ some r)
    unfolding proc_runtime_block
    proc_runtime_block-ends ins w = wait_for-ends (condition_of ins) w
