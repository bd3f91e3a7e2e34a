-- ===== src/StratumProxy/Vardiff/Bounds.antt =====
-- The difficulty of crates/stratum-proxy/src/vardiff.rs: its bounds, and the window of the intervals.
use cr_faucet.Common.{
  ℕ, min, max, ◌≤◌, ◌<◌, ◌≡◌, ◌⊎◌, ◌&&◌, refl, ◌∙◌, Bool, Option, none, some, [], ◌∷◌, ◌++◌, ◌-◌,
  arith, length, length-drop, Bool-cases, inl, inr, ltb, if◌then◌else◌, ◌==◌, ==_iff,
}
use cr_faucet.StratumProxy.Vardiff.{
  Floating, Vardiff, VardiffConfig, new, effective_max, set_upstream_cap, honor_cap, push_interval,
  push_since, on_share, clamp, next_diff, change_to, adjust, judged_avg, retarget_with_gap,
  retarget, serve, t_min, t_max,
}

-- What holds between any two operations.
pub record IsSane {F : Type 0} (v : Vardiff F) : Type 0 where
  pub above : v.min ≤ v.current
  pub room : 0 < v.sample_size
  pub window : length v.intervals ≤ v.sample_size

-- The parts of a state that the settings and the upstream fix.
abbrev pub SameBounds : {F : Type 0} → Vardiff F → Vardiff F → Type 0
SameBounds v w =
    (w.min ≡ v.min)
    × (w.max ≡ v.max)
    × (w.sample_size ≡ v.sample_size)
    × (w.max_gain_factor ≡ v.max_gain_factor)
    × (w.max_drop_factor ≡ v.max_drop_factor)

-- The window is kept with the difficulty, or it is empty.
abbrev pub SameWindow : {F : Type 0} → Vardiff F → Vardiff F → Type 0
SameWindow v w = ((w.current ≡ v.current) × (w.intervals ≡ v.intervals)) ⊎ (w.intervals ≡ [])

pub min-le-effective_max : {F : Type 0} (v : Vardiff F) → v.min ≤ effective_max v
unfolding effective_max
min-le-effective_max v = omega arith

-- The cap brings the difficulty back under itself, whatever it was before.
pub set_upstream_cap-IsSane :
    {F : Type 0} (d : ℕ) (v : Vardiff F)
    → IsSane v
    → IsSane (set_upstream_cap d v)
      × ((set_upstream_cap d v).current ≤ effective_max (set_upstream_cap d v))
      × SameBounds v (set_upstream_cap d v)
      × (effective_max (set_upstream_cap d v) ≡ max (min v.max d) v.min)
      × SameWindow v (set_upstream_cap d v)
unfolding set_upstream_cap effective_max
set_upstream_cap-IsSane d v h =
    let a = h.above in
    let b = h.room in
    let c = h.window in
    elim (Bool-cases (ltb (max (min v.max d) v.min) v.current)) [
      | inl q ↦ rw q (
        record { above = omega arith; room = b; window = omega arith },
        omega arith,
        (refl, refl, refl, refl, refl),
        refl,
        inr refl,
      )
      | inr q ↦ rw q (
        record { above = a; room = b; window = c },
        ground arith,
        (refl, refl, refl, refl, refl),
        refl,
        inl (refl, refl),
      )
    ]

-- Within its bounds a state honors the cap already.
honor_cap_lem : {F : Type 0} (v : Vardiff F) → v.current ≤ effective_max v → honor_cap v ≡ v
unfolding honor_cap
honor_cap_lem v h = ground (arith, h)

clamp_lem : (x lo hi : ℕ) → lo ≤ hi → (y : ℕ) × (clamp x lo hi ≡ some y) × (lo ≤ y) × (y ≤ hi)
unfolding clamp
clamp_lem x lo hi h =
    (if ltb x lo then lo else if ltb hi x then hi else x, ground arith, ground arith, ground arith)

module _ {F : Type 0} (fl : Floating F) where
  open fl use {of_nat, mul, round}

  -- The factors do not cross: a difficulty may fall at least as far as it may rise.
  abbrev pub Ordered : Vardiff F → Type 0
  Ordered v =
      (c : ℕ) → round (mul (of_nat c) v.max_drop_factor) ≤ round (mul (of_nat c) v.max_gain_factor)

  next_diff_lem :
      (avg : F) (v : Vardiff F)
      → Ordered v
      → (d : ℕ) × (next_diff fl avg v ≡ some d) × (v.min ≤ d) × (d ≤ effective_max v)
  unfolding next_diff
  next_diff_lem avg v o =
      let (a, p, _, _) =
        clamp_lem (round (mul (fl.div v.target_secs avg) (of_nat v.current))) _ _ (o v.current) in
      let (d, q, lo, hi) = clamp_lem a v.min (effective_max v) (min-le-effective_max v) in
      (d, rw p q, lo, hi)

  change_to-IsSane :
      (idle : Bool) (now d : ℕ) (v : Vardiff F)
      → IsSane v
      → v.min ≤ d
      → d ≤ effective_max v
      → (d ≡ (change_to fl idle now d v).current)
        × IsSane (change_to fl idle now d v)
        × SameBounds v (change_to fl idle now d v)
        × (effective_max (change_to fl idle now d v) ≡ effective_max v)
        × ((change_to fl idle now d v).current ≤ effective_max v)
  unfolding change_to effective_max
  change_to-IsSane idle now d v h lo hi = elim (Bool-cases (d == v.current)) [
    | inl q ↦ rw q (
      (==_iff d v.current).0 q,
      h,
      (refl, refl, refl, refl, refl),
      refl,
      let e = (==_iff d v.current).0 q in omega arith,
    )
    | inr q ↦ rw q (
      refl,
      record { above = lo; room = h.room; window = omega arith },
      (refl, refl, refl, refl, refl),
      refl,
      hi,
    )
  ]

  Ordered-cap : (d : ℕ) (v : Vardiff F) → Ordered v → Ordered (set_upstream_cap d v)
  unfolding set_upstream_cap
  Ordered-cap d v o = elim (Bool-cases (ltb (max (min v.max d) v.min) v.current)) [
    | inl q ↦ rw q o
    | inr q ↦ rw q o
  ]

  -- What a retarget promises of its answer.
  abbrev pub Retargeted : Vardiff F → Option (ℕ × Vardiff F) → Type 0
  Retargeted v none = ⊥
  Retargeted v (some (d, w)) =
      (d ≡ w.current)
      × IsSane w
      × SameBounds v w
      × (effective_max w ≡ effective_max v)
      × (w.current ≤ effective_max w)
      × SameWindow v w

  keeps :
      (v : Vardiff F) → IsSane v → v.current ≤ effective_max v → Retargeted v (some (v.current, v))
  keeps v h b = (refl, h, (refl, refl, refl, refl, refl), refl, b, inl (refl, refl))

  change_to-clears :
      (idle : Bool) (now d : ℕ) (v : Vardiff F) → SameWindow v (change_to fl idle now d v)
  unfolding change_to
  change_to-clears idle now d v = elim (Bool-cases (d == v.current)) [
    | inl q ↦ rw q (inl (refl, refl))
    | inr q ↦ rw q (inr refl)
  ]

  adjust-Retargeted :
      (gap : F) (now : ℕ) (avg : Option F) (v : Vardiff F)
      → IsSane v
      → v.current ≤ effective_max v
      → Ordered v
      → Retargeted v (adjust fl gap now avg v)
  unfolding adjust
  adjust-Retargeted gap now none v h b o = keeps v h b
  adjust-Retargeted gap now (some avg) v h b o =
      let (d, e, lo, hi) = next_diff_lem avg v o in
      let idle = fl.lt (t_max fl v) gap in
      let (same, sane, bounds, cap, top) = change_to-IsSane idle now d v h lo hi in
      elim (Bool-cases (fl.le (t_min fl v) avg && fl.le avg (t_max fl v))) [
        | inl q ↦ rw q (keeps v h b)
        | inr q ↦ rw (q, e) (same, sane, bounds, cap, rw cap top, change_to-clears idle now d v)
      ]

  -- A retarget of a sane state does not panic if the factors are ordered, keeps the state sane and
  -- the bounds as they are, answers the new difficulty, and clears the window if that has changed.
  pub retarget-Retargeted :
      (now : ℕ) (v : Vardiff F)
      → IsSane v
      → v.current ≤ effective_max v
      → Ordered v
      → Retargeted v (retarget fl now v)
  unfolding retarget retarget_with_gap
  retarget-Retargeted now v h b o =
      rw (honor_cap_lem v b) (adjust-Retargeted _ now (judged_avg fl _ v) v h b o)

  abbrev pub Served : ℕ → Vardiff F → Option (ℕ × Vardiff F) → Type 0
  Served upstream_diff v none = ⊥
  Served upstream_diff v (some (d, w)) =
      (d ≡ w.current)
      × (v.min ≤ d)
      × (d ≤ max (min v.max upstream_diff) v.min)
      × IsSane w
      × SameBounds v w
      × SameWindow v w

  SameWindow-trans : (u v w : Vardiff F) → SameWindow u v → SameWindow v w → SameWindow u w
  SameWindow-trans u v w (inl p) (inl q) = inl (q.0 ∙ p.0, q.1 ∙ p.1)
  SameWindow-trans u v w (inr p) (inl q) = inr (q.1 ∙ p)
  SameWindow-trans u v w p (inr q) = inr q

  Retargeted-Served :
      (d : ℕ) (v : Vardiff F) (r : Option (ℕ × Vardiff F))
      → IsSane v
      → Retargeted (set_upstream_cap d v) r
      → Served d v r
  Retargeted-Served d v none h k = elim k [ ]
  Retargeted-Served d v (some (x, w)) h k =
      let (sane, _, same, cap, win) = set_upstream_cap-IsSane d v h in
      let (e, sane', same', cap', top, win') = k in
      let low = sane'.above in
      (
        e,
        omega arith,
        omega (arith, same.0, same'.0, cap, cap'),
        sane',
        (same'.0 ∙ same.0, same'.1 ∙ same.1, same'.2 ∙ same.2, same'.3 ∙ same.3, same'.4 ∙ same.4),
        SameWindow-trans v (set_upstream_cap d v) w win win',
      )

  -- A job boundary does not panic if the factors do not cross; the difficulty that it serves is
  -- the current one from then on, at least the floor, and at most the upstream's, or the floor where
  -- that is higher. The window is emptied whenever the difficulty changes.
  pub serve_bounds :
      (now upstream_diff : ℕ) (v : Vardiff F)
      → IsSane v
      → Ordered v
      → Served upstream_diff v (serve fl now upstream_diff v)
  unfolding serve
  serve_bounds now d v h o =
      let c = set_upstream_cap d v in
      let (sane, low, same, cap, win) = set_upstream_cap-IsSane d v h in
      Retargeted-Served d v (retarget fl now c) h
        (retarget-Retargeted now c sane low (Ordered-cap d v o))

  push_interval-IsSane : (x : F) (v : Vardiff F) → IsSane v → IsSane (push_interval fl x v)
  unfolding push_interval
  push_interval-IsSane x v h = record {
    above = h.above;
    room = h.room;
    window = omega (
      arith,
      length-drop (length (v.intervals ++ (y ∷ [])) - v.sample_size) (v.intervals ++ (y ∷ [])),
    );
  }
    where
      y : F
      y = fl.max x (fl.div (of_nat 1) (of_nat 1000))

  push_since-IsSane :
      (now : ℕ) (last : Option ℕ) (v : Vardiff F) → IsSane v → IsSane (push_since fl now last v)
  push_since-IsSane now none v h = h
  push_since-IsSane now (some p) v h = push_interval-IsSane _ v h

  -- A share leaves the difficulty alone, and the window within its size.
  pub on_share-IsSane : (now : ℕ) (v : Vardiff F) → IsSane v → IsSane (on_share fl now v)
  unfolding on_share
  on_share-IsSane now v h =
      let k = push_since-IsSane now v.last_submit v h in
      record { above = k.above; room = k.room; window = k.window }

  Ordered-push_since :
      (now : ℕ) (last : Option ℕ) (v : Vardiff F) → Ordered v → Ordered (push_since fl now last v)
  unfolding push_interval
  Ordered-push_since now none v o = o
  Ordered-push_since now (some p) v o = o

  pub Ordered-on_share : (now : ℕ) (v : Vardiff F) → Ordered v → Ordered (on_share fl now v)
  unfolding on_share
  Ordered-on_share now v o = Ordered-push_since now v.last_submit v o

  -- A new controller is sane, whatever its settings.
  pub new-IsSane :
      (low initial high target now : ℕ) (cfg : VardiffConfig F)
      → IsSane (new fl low initial high target cfg now)
  unfolding new
  new-IsSane low initial high target now cfg = record {
    above = omega arith;
    room = omega arith;
    window = omega arith;
  }

  pub new-Ordered :
      (low initial high target now : ℕ) (cfg : VardiffConfig F)
      → ((c : ℕ)
          → round (mul (of_nat c) cfg.max_drop_factor) ≤ round (mul (of_nat c) cfg.max_gain_factor))
      → Ordered (new fl low initial high target cfg now)
  unfolding new
  new-Ordered low initial high target now cfg o = o
