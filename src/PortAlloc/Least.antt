-- ===== src/PortAlloc/Least.antt =====
-- Which port the allocator of internal/pkg/portalloc returns, and when it fails.
use tunnel_manager.Prelude.{
  ℕ, zero, suc, ◌+◌, ◌-◌, ◌≤◌, ◌<◌, ◌≡◌, ◌↔◌, Bool, true, false, ok, err, arith, inl, inr,
  Bool-cases, refl, ◌⊎◌,
}
use tunnel_manager.PortAlloc.{Allocator, no_free_port, scan, allocate}

-- `p` is the first port from `lo` on that is free, and lies below `hi`.
pub record IsLeastFree (taken : ℕ → Bool) (lo hi p : ℕ) : Type 0 where
  pub above : lo ≤ p
  pub below : p < hi
  pub free : taken p ≡ false
  pub earlier : (q : ℕ) → lo ≤ q → q < p → taken q ≡ true

taken_at : (taken : ℕ → Bool) (p q : ℕ) → p ≡ q → taken p ≡ true → taken q ≡ true
taken_at taken p q e h = rw (← e) h

eq_or_lt : (p q : ℕ) → p ≤ q → (p ≡ q) ⊎ (p + 1 ≤ q)
eq_or_lt p q h = grind arith

module _ (taken : ℕ → Bool) where
  scan_least :
      (rounds port p : ℕ) → scan taken rounds port ≡ ok p → IsLeastFree taken port (port + rounds) p
  unfolding scan
  scan_least zero port p h = cc
  scan_least (suc rounds) port p h = elim (Bool-cases (taken port)) [
    | inl busy ↦
        let r = scan_least rounds (port + 1) p (rw (busy, scan) at h) in
        record {
          above = omega (arith, r.above);
          below = omega (arith, r.below);
          free = r.free;
          earlier = λ q a b. elim (eq_or_lt port q a) [
            | inl e ↦ taken_at taken port q e busy
            | inr l ↦ r.earlier q l b
          ];
        }
    | inr free ↦
        let e : ok port ≡ ok p = rw (free, scan) at h in
        record {
          above = ground arith;
          below = ground arith;
          free = ground arith;
          earlier = λ q a b. absurd (ground arith);
        }
  ]

  scan_total :
      (rounds port : ℕ)
      → ((p : ℕ) × (scan taken rounds port ≡ ok p))
        ⊎ ((scan taken rounds port ≡ err no_free_port)
            × ((q : ℕ) → port ≤ q → q < port + rounds → taken q ≡ true))
  unfolding scan
  scan_total zero port = inr (refl, λ q a b. absurd (omega arith))
  scan_total (suc rounds) port = elim (Bool-cases (taken port)) [
    | inr free ↦ inl (port, rw free)
    | inl busy ↦ elim (scan_total rounds (port + 1)) [
      | inl (p, e) ↦ inl (p, rw busy e)
      | inr (e, all) ↦ inr (
        rw busy e,
        λ q a b. elim (eq_or_lt port q a) [
          | inl same ↦ taken_at taken port q same busy
          | inr l ↦ all q l (omega arith)
        ],
      )
    ]
  ]

unique :
    {taken : ℕ → Bool} {lo hi p q : ℕ}
    → IsLeastFree taken lo hi p
    → IsLeastFree taken lo hi q
    → p ≡ q
unique {taken} {lo} {hi} {p} {q} a b = elim (order p q) [
  | inl l ↦ cc (b.earlier p a.above l, a.free)
  | inr (inl l) ↦ cc (a.earlier q b.above l, b.free)
  | inr (inr e) ↦ e
]
  where
    order : (m n : ℕ) → (m < n) ⊎ ((n < m) ⊎ (m ≡ n))
    order m n = grind arith

-- `Allocate` returns `p` exactly when `p` is the least port of the range that is not taken.
pub allocate-IsLeastFree :
    (a : Allocator) (taken : ℕ → Bool) (p : ℕ)
    → (allocate a taken ≡ ok p) ↔ IsLeastFree taken a.start (a.end + 1) p
unfolding allocate
allocate-IsLeastFree a taken p = (
  λ h. sound h,
  λ l. elim (scan_total taken (a.end + 1 - a.start) a.start) [
    | inl (q, e) ↦ rw (unique l (sound e)) e
    | inr (e, all) ↦ cc (all p l.above (omega (arith, l.above, l.below)), l.free)
  ],
)
  where
    range : (lo hi q : ℕ) → lo ≤ q → q < lo + (hi - lo) → q < hi
    range lo hi q h k = omega arith

    sound :
        {q : ℕ}
        → scan taken (a.end + 1 - a.start) a.start ≡ ok q
        → IsLeastFree taken a.start (a.end + 1) q
    sound {q} h =
        let r = scan_least taken (a.end + 1 - a.start) a.start q h in
        record {
          above = r.above;
          below = range a.start (a.end + 1) q r.above r.below;
          free = r.free;
          earlier = r.earlier;
        }

-- `Allocate` fails exactly when every port of the range is taken, and then says so.
pub allocate-exhausted :
    (a : Allocator) (taken : ℕ → Bool)
    → (allocate a taken ≡ err no_free_port) ↔ ((q : ℕ) → a.start ≤ q → q ≤ a.end → taken q ≡ true)
unfolding allocate
allocate-exhausted a taken = elim (scan_total taken (a.end + 1 - a.start) a.start) [
  | inl (p, e) ↦
      let r = scan_least taken (a.end + 1 - a.start) a.start p e in
      (λ h. cc, λ all. cc (all p r.above (omega (arith, r.above, r.below)), r.free))
  | inr (e, all) ↦ (λ h q lo hi. all q lo (omega arith), λ h. e)
]
