-- ===== src/StratumProxy/Vardiff.antt =====
-- crates/stratum-proxy/src/vardiff.rs: the difficulty that a connection is asked for. Floating-point
-- numbers are a parameter, with no law. An instant is a number of nanoseconds, and an operation takes
-- the instant that it is called at. A panic is `none`.
pub mod Bounds
use cr_faucet.Common.{
  ℕ, ◌+◌, ◌-◌, ◌^◌, Bool, ◌&&◌, Option, none, some, List, [], ◌∷◌, ◌++◌, ltb, ◌==◌, length, drop,
  if◌then◌else◌,
}
use Prim.Native.Nat
use mathlib.Core.List.{foldl}

-- The operations of `f64` that are used.
pub record Floating (F : Type 0) : Type 0 where
  pub of_nat : ℕ → F
  pub add : F → F → F
  pub sub : F → F → F
  pub mul : F → F → F
  pub div : F → F → F
  pub lt : F → F → Bool
  pub le : F → F → Bool
  pub max : F → F → F
  pub clamp : F → F → F → F
  -- `round() as u64`
  pub round : F → ℕ
  -- `as_secs_f64`
  pub as_secs : ℕ → F

pub record VardiffConfig (F : Type 0) : Type 0 where
  pub sample_size : ℕ
  pub variance_percent : F
  pub max_gain_factor : F
  pub max_drop_factor : F

pub record Vardiff (F : Type 0) : Type 0 where
  pub current : ℕ
  pub min : ℕ
  pub max : ℕ
  pub upstream_cap : ℕ
  pub target_secs : F
  pub last_submit : Option ℕ
  pub intervals : List F
  pub sample_size : ℕ
  pub variance : F
  pub max_gain_factor : F
  pub max_drop_factor : F

-- `Ord::clamp`, which panics if its bounds are crossed.
unfoldable pub clamp : ℕ → ℕ → ℕ → Option ℕ
clamp x lo hi =
    if ltb hi lo then none else some (if ltb x lo then lo else if ltb hi x then hi else x)

unfoldable pub effective_max : {F : Type 0} → Vardiff F → ℕ
effective_max v = Nat.max (Nat.min v.max v.upstream_cap) v.min

-- The window is cleared when the cap forces the difficulty down.
unfoldable pub set_upstream_cap : {F : Type 0} → ℕ → Vardiff F → Vardiff F
unfolding effective_max
set_upstream_cap upstream_diff v =
    let w = record v { upstream_cap = upstream_diff } in
    let ceil = effective_max w in
    if ltb ceil w.current then record w { current = ceil; intervals = [] } else w

-- The first lines of `retarget_with_gap`: a current difficulty above the cap is lowered.
unfoldable pub honor_cap : {F : Type 0} → Vardiff F → Vardiff F
honor_cap v = if ltb (effective_max v) v.current then record v { current = effective_max v } else v

infixl 5 ◌>>=◌
abbrev pub ◌>>=◌ {ℓ κ} : {A : Type ℓ} {B : Type κ} → Option A → (A → Option B) → Option B
none >>= f = none
some a >>= f = f a

module _ {F : Type 0} (fl : Floating F) where
  open fl use {of_nat, add, sub, mul, div, lt, le, round, as_secs}

  -- `Vardiff::new`
  unfoldable pub new : ℕ → ℕ → ℕ → ℕ → VardiffConfig F → ℕ → Vardiff F
  new min initial max target_secs cfg now = record {
    current = Nat.max initial min;
    min = min;
    max = max;
    upstream_cap = 2 ^ 64 - 1;
    target_secs = of_nat target_secs;
    last_submit = some now;
    intervals = [];
    sample_size = Nat.max cfg.sample_size 1;
    variance =
        fl.clamp (div cfg.variance_percent (of_nat 100)) (of_nat 0) (div (of_nat 95) (of_nat 100));
    max_gain_factor = cfg.max_gain_factor;
    max_drop_factor = cfg.max_drop_factor;
  }

  -- Intervals leave at the front while there are more than `sample_size`.
  unfoldable pub push_interval : F → Vardiff F → Vardiff F
  push_interval dt v =
      let grown = v.intervals ++ (fl.max dt (div (of_nat 1) (of_nat 1000)) ∷ []) in
      record v { intervals = drop (length grown - v.sample_size) grown }

  abbrev pub push_since : ℕ → Option ℕ → Vardiff F → Vardiff F
  push_since now none v = v
  push_since now (some prev) v = push_interval (as_secs (now - prev)) v

  unfoldable pub on_share : ℕ → Vardiff F → Vardiff F
  on_share now v = record (push_since now v.last_submit v) { last_submit = some now }

  unfoldable pub window_avg : List F → Option F → Option F
  window_avg [] none = none
  window_avg (i ∷ is) none = some (div (foldl add (of_nat 0) (i ∷ is)) (of_nat (length (i ∷ is))))
  window_avg is (some e) = some (div (add (foldl add (of_nat 0) is) e) (of_nat (length is + 1)))

  abbrev pub t_min : Vardiff F → F
  t_min v = mul v.target_secs (sub (of_nat 1) v.variance)

  abbrev pub t_max : Vardiff F → F
  t_max v = mul v.target_secs (add (of_nat 1) v.variance)

  abbrev pub or_gap : F → Option F → F
  or_gap gap none = gap
  or_gap gap (some a) = a

  -- The average that is judged; `none` where the window is not full.
  unfoldable pub judged_avg : F → Vardiff F → Option F
  unfolding window_avg
  judged_avg gap v =
      if lt (t_max v) gap
      then some (or_gap gap (window_avg v.intervals (some gap)))
      else if ltb (length v.intervals) v.sample_size
      then none
      else window_avg v.intervals none

  -- The new difficulty: `none` where the bounds of the first clamp are crossed.
  unfoldable pub next_diff : F → Vardiff F → Option ℕ
  next_diff avg v = do
    let raw = mul (div v.target_secs avg) (of_nat v.current)
    let hi = round (mul (of_nat v.current) v.max_gain_factor)
    let lo = round (mul (of_nat v.current) v.max_drop_factor)
    step ← clamp (round raw) lo hi
    clamp step v.min (effective_max v)

  -- A change clears the window, and a change after a gap restarts the clock.
  unfoldable pub change_to : Bool → ℕ → ℕ → Vardiff F → Vardiff F
  change_to idle now new v = if new == v.current then v else record v {
    current = new;
    intervals = [];
    last_submit = if idle then some now else v.last_submit;
  }

  abbrev pub changed : Bool → ℕ → Vardiff F → Option ℕ → Option (ℕ × Vardiff F)
  changed idle now v none = none
  changed idle now v (some new) = some (new, change_to idle now new v)

  unfoldable pub adjust : F → ℕ → Option F → Vardiff F → Option (ℕ × Vardiff F)
  adjust gap now none v = some (v.current, v)
  adjust gap now (some avg) v =
      if le (t_min v) avg && le avg (t_max v)
      then some (v.current, v)
      else changed (lt (t_max v) gap) now v (next_diff avg v)

  unfoldable pub retarget_with_gap : F → ℕ → Vardiff F → Option (ℕ × Vardiff F)
  retarget_with_gap gap now v = let w = honor_cap v in adjust gap now (judged_avg gap w) w

  abbrev pub gap_of : ℕ → Option ℕ → F
  gap_of now none = of_nat 0
  gap_of now (some p) = as_secs (now - p)

  unfoldable pub retarget : ℕ → Vardiff F → Option (ℕ × Vardiff F)
  retarget now v = retarget_with_gap (gap_of now v.last_submit) now v

  -- What a job boundary asks of the controller: the cap of the job, then a retarget.
  unfoldable pub serve : ℕ → ℕ → Vardiff F → Option (ℕ × Vardiff F)
  serve now upstream_diff v = retarget now (set_upstream_cap upstream_diff v)
