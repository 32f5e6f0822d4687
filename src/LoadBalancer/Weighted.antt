-- ===== src/LoadBalancer/Weighted.antt =====
-- The weighted balancer: over its draws every healthy target is picked as often as its weight says.
use corridor.Prelude.{
  ℕ, zero, suc, ◌+◌, ◌-◌, ◌<◌, ◌≤◌, ◌^◌, ◌≡◌, refl, sym, ◌∙◌, ap, inl, inr, List, [], ◌∷◌, ◌++◌,
  some, In, All, true, false, arith, Bool-cases, length, length-append, get_elem?, ltb,
  get_elem?_total, if◌then◌else◌,
}
use corridor.Prelude.Int.{pos, add64, add64_pos, ltb_ℤ, leb_ℤ, pos_part}
use corridor.LoadBalancer.Target.{Store, is_healthy}
use corridor.LoadBalancer.Next.{
  Picked, element, healthy_targets, total_weight, pick_weighted, weigh, weight_of, among,
  next_weighted,
}
use corridor.LoadBalancer.Sound.{IsLive, healthy_targets_iff}

abbrev replicate : ℕ → ℕ → List ℕ
replicate zero a = []
replicate (suc n) a = a ∷ replicate n a

-- The positive weight that the factory gives each target.
abbrev pub HasWeight : Store → ℕ → Type 0
HasWeight h a = (w : ℕ) × (weight_of h a ≡ pos (suc w))

abbrev pub weight : Store → ℕ → ℕ
weight h a = pos_part (weight_of h a)

-- The urn: each target as often as its weight.
unfoldable pub urn : Store → List ℕ → List ℕ
urn h [] = []
urn h (a ∷ ts) = replicate (weight h a) a ++ urn h ts

length-replicate : (n a : ℕ) → length (replicate n a) ≡ n
length-replicate zero a = refl
length-replicate (suc n) a = ap suc (length-replicate n a)

urn_cons :
    (h : Store) (a : ℕ) (ts : List ℕ) → length (urn h (a ∷ ts)) ≡ weight h a + length (urn h ts)
unfolding urn
urn_cons h a ts =
    length-append (replicate (weight h a) a) (urn h ts)
    ∙ ap (λ k. k + length (urn h ts)) (length-replicate (weight h a) a)

total_weight-urn :
    (h : Store) (acc : ℕ) (ts : List ℕ)
    → All (HasWeight h) ts
    → acc + length (urn h ts) < 2 ^ 63
    → total_weight h (pos acc) ts ≡ pos (acc + length (urn h ts))
unfolding total_weight urn
total_weight-urn h acc [] all fits = ap pos (omega arith)
total_weight-urn h acc (a ∷ ts) ((w, e), all) fits =
    let size = urn_cons h a ts in
    let here : weight h a ≡ suc w = ap pos_part e in
    let sum = ap (add64 (pos acc)) e ∙ add64_pos acc (suc w) (omega arith) in
    ap (λ z. total_weight h z ts) sum
    ∙ total_weight-urn h (acc + suc w) ts all (omega arith)
    ∙ ap pos (omega arith)

get_elem?-replicate_lt :
    (n a r : ℕ) (ys : List ℕ) → r < n → get_elem? (replicate n a ++ ys) r ≡ some a
get_elem?-replicate_lt zero a r ys h = elim h [ ]
get_elem?-replicate_lt (suc n) a zero ys h = refl
get_elem?-replicate_lt (suc n) a (suc r) ys h = get_elem?-replicate_lt n a r ys (omega arith)

get_elem?-replicate_ge :
    (n a k r : ℕ) (ys : List ℕ) → k ≡ n + r → get_elem? (replicate n a ++ ys) k ≡ get_elem? ys r
get_elem?-replicate_ge zero a k r ys e = ap (get_elem? ys) (omega arith)
get_elem?-replicate_ge (suc n) a zero r ys e = absurd (omega arith)
get_elem?-replicate_ge (suc n) a (suc k) r ys e = get_elem?-replicate_ge n a k r ys (omega arith)

-- The loop over the cumulative weights reads the urn at the drawn number.
pick_weighted-urn :
    (h : Store) (acc r : ℕ) (ts : List ℕ)
    → All (HasWeight h) ts
    → acc + length (urn h ts) < 2 ^ 63
    → pick_weighted h (pos (acc + r)) (pos acc) ts ≡ get_elem? (urn h ts) r
unfolding pick_weighted urn
pick_weighted-urn h acc r [] all fits = refl
pick_weighted-urn h acc r (a ∷ ts) ((w, e), all) fits =
    let size = urn_cons h a ts in
    let here : weight h a ≡ suc w = ap pos_part e in
    let sum : add64 (pos acc) (weight_of h a) ≡ pos (acc + suc w) =
      ap (add64 (pos acc)) e ∙ add64_pos acc (suc w) (omega arith) in
    let step =
      ap (λ z. if ltb_ℤ (pos (acc + r)) z then some a else pick_weighted h (pos (acc + r)) z ts)
        sum in
    elim (Bool-cases (ltb r (suc w))) [
      | inl low ↦
          let test : ltb_ℤ (pos (acc + r)) (pos (acc + suc w)) ≡ true = ground arith in
          step ∙ rw test (sym (get_elem?-replicate_lt (weight h a) a r (urn h ts) (ground arith)))
      | inr high ↦
          let test : ltb_ℤ (pos (acc + r)) (pos (acc + suc w)) ≡ false = ground arith in
          let beyond : suc w ≤ r = ground arith in
          let rest = pick_weighted-urn h (acc + suc w) (r - suc w) ts all (omega arith) in
          let moved : acc + suc w + (r - suc w) ≡ acc + r = omega arith in
          step
          ∙ rw test (
              ap (λ k. pick_weighted h (pos k) (pos (acc + suc w)) ts) (sym moved)
              ∙ rest
              ∙ sym (get_elem?-replicate_ge (weight h a) a r (r - suc w) (urn h ts) (omega arith)))
    ]

All-healthy_targets {κ} :
    (P : ℕ → Type κ) (h : Store) (ts : List ℕ) → All P ts → All P (healthy_targets h ts)
unfolding healthy_targets
All-healthy_targets P h [] all = tt
All-healthy_targets P h (a ∷ ts) (p, all) = elim (Bool-cases (is_healthy h a)) [
  | inl well ↦ rw well (p, All-healthy_targets P h ts all)
  | inr sick ↦ rw sick (All-healthy_targets P h ts all)
]

urn_pos : (h : Store) (ts : List ℕ) (b : ℕ) → All (HasWeight h) ts → In b ts → 0 < length (urn h ts)
urn_pos h [] b all m = absurd m
urn_pos h (a ∷ ts) b ((w, e), all) m =
    let here : weight h a ≡ suc w = ap pos_part e in omega (arith, urn_cons h a ts)

-- The weighing reads the urn of targets that all have a weight.
weigh-urn :
    (h : Store) (intn : ℕ → ℕ) (ts : List ℕ)
    → All (HasWeight h) ts
    → 0 < length (urn h ts)
    → length (urn h ts) < 2 ^ 63
    → intn (length (urn h ts)) < length (urn h ts)
    → weigh h intn ts ≡ element (get_elem? (urn h ts) (intn (length (urn h ts))))
unfolding weigh
weigh-urn h intn ts all some_weight fits drawn =
    let total : total_weight h (pos 0) ts ≡ pos (length (urn h ts)) =
      total_weight-urn h 0 ts all (omega arith) ∙ ap pos (omega arith) in
    let heavy : leb_ℤ (pos (length (urn h ts))) (pos 0) ≡ false = ground arith in
    let r = intn (length (urn h ts)) in
    let (a, found) = get_elem?_total (urn h ts) r drawn in
    let zero_add : 0 + r ≡ r = omega arith in
    let read : pick_weighted h (pos r) (pos 0) ts ≡ get_elem? (urn h ts) r =
      ap (λ k. pick_weighted h (pos k) (pos 0) ts) (sym zero_add)
      ∙ pick_weighted-urn h 0 r ts all (omega arith) in
    rw (total, heavy, read, found) refl

pub among_some : (a : ℕ) (xs : List ℕ) (p : Picked) → In a xs → among xs p ≡ p
among_some a [] p m = absurd m
among_some a (_ ∷ _) p m = refl

pub next_weighted-weigh :
    (h : Store) (intn : ℕ → ℕ) (ts : List ℕ) (b : ℕ)
    → IsLive h ts b
    → next_weighted h intn ts ≡ weigh h intn (healthy_targets h ts)
unfolding next_weighted
next_weighted-weigh h intn [] b (m, well) = absurd m
next_weighted-weigh h intn (t ∷ ts) b live =
    among_some b _ (weigh h intn (healthy_targets h (t ∷ ts)))
      ((healthy_targets_iff h (t ∷ ts) b).1 live)

-- If every target has a positive weight, some target is healthy, the weights of the healthy ones
-- sum to less than 2^63 and the draw is below that sum, the weighted balancer returns the target
-- at the drawn position of the urn that holds each healthy target as often as its weight. So over
-- the equally likely draws each healthy target is returned as often as its weight says.
pub next_weighted-urn :
    (h : Store) (intn : ℕ → ℕ) (ts : List ℕ) (b : ℕ)
    → All (HasWeight h) ts
    → IsLive h ts b
    → length (urn h (healthy_targets h ts)) < 2 ^ 63
    → ((n : ℕ) → 0 < n → intn n < n)
    → next_weighted h intn ts
      ≡ element
          (get_elem? (urn h (healthy_targets h ts)) (intn (length (urn h (healthy_targets h ts)))))
next_weighted-urn h intn ts b all live fits draws =
    let healthy = healthy_targets h ts in
    let weighed = All-healthy_targets (HasWeight h) h ts all in
    let heavy = urn_pos h healthy b weighed ((healthy_targets_iff h ts b).1 live) in
    next_weighted-weigh h intn ts b live
    ∙ weigh-urn h intn healthy weighed heavy fits (draws _ heavy)
