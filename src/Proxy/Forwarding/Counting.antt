-- ===== src/Proxy/Forwarding/Counting.antt =====
-- How increments and decrements of the connection counters follow a list of requests' targets.
use corridor.Prelude.{
  ℕ, suc, ◌+◌, ◌^◌, ◌≤◌, ◌<◌, ◌≡◌, refl, sym, ◌∙◌, ap, List, [], ◌∷◌, ◌++◌, arith, eqb,
  if◌then◌else◌, Bool-cases, inl, inr, length,
}
use corridor.Prelude.Int.{pos, negsuc, add64, add64_pos, add64_cancel}
use corridor.LoadBalancer.Target.{
  Store, get_active_connections, increment_active_connections, decrement_active_connections,
}

unfoldable pub occurrences : ℕ → List ℕ → ℕ
occurrences a [] = 0
occurrences a (b ∷ bs) = let rest = occurrences a bs in if eqb b a then suc rest else rest

pub occurrences_middle :
    (a b : ℕ) (pre post : List ℕ)
    → occurrences a (pre ++ (b ∷ post)) ≡ occurrences a (b ∷ (pre ++ post))
unfolding occurrences
occurrences_middle a b [] post = refl
occurrences_middle a b (c ∷ pre) post = ground (arith, occurrences_middle a b pre post)

pub occurrences_append :
    (a : ℕ) (bs cs : List ℕ) → occurrences a (bs ++ cs) ≡ occurrences a bs + occurrences a cs
unfolding occurrences
occurrences_append a [] cs = omega arith
occurrences_append a (b ∷ bs) cs = ground (arith, occurrences_append a bs cs)

pub occurrences_le : (a : ℕ) (bs : List ℕ) → occurrences a bs ≤ length bs
unfolding occurrences
occurrences_le a [] = omega arith
occurrences_le a (b ∷ bs) = ground (arith, occurrences_le a bs)

active-increment :
    (a b : ℕ) (h : Store)
    → get_active_connections (increment_active_connections a h) b
      ≡ (if eqb a b then add64 (get_active_connections h b) (pos 1) else get_active_connections h b)
unfolding increment_active_connections
active-increment a b h = ground arith

active-decrement :
    (a b : ℕ) (h : Store)
    → get_active_connections (decrement_active_connections a h) b ≡ (
        if eqb a b
        then add64 (get_active_connections h b) (negsuc 0)
        else get_active_connections h b)
unfolding decrement_active_connections
active-decrement a b h = ground arith

pub occurrences_cons :
    (a b : ℕ) (bs : List ℕ)
    → occurrences a (b ∷ bs) ≡ (if eqb b a then suc (occurrences a bs) else occurrences a bs)
unfolding occurrences
occurrences_cons a b bs = refl

pub one_more :
    (n a b : ℕ) (h : Store) (flying : List ℕ)
    → suc n < 2 ^ 63
    → length flying ≤ n
    → get_active_connections h b ≡ pos (occurrences b flying)
    → get_active_connections (increment_active_connections a h) b ≡ pos (occurrences b (a ∷ flying))
one_more n a b h flying room few count =
    let within = occurrences_le b flying in
    elim (Bool-cases (eqb a b)) [
      | inl same ↦
          active-increment a b h
          ∙ rw (same, count)
              (add64_pos (occurrences b flying) 1 (omega arith)
                ∙ ap pos (let e = occurrences_cons b a flying in ground arith))
      | inr other ↦
          active-increment a b h
          ∙ rw (other, count) (ap pos (let e = occurrences_cons b a flying in ground arith))
    ]

add64_back : (m : ℕ) → m + 1 < 2 ^ 63 → add64 (pos (suc m)) (negsuc 0) ≡ pos m
add64_back m room =
    let next : m + 1 ≡ suc m = omega arith in
    ap (λ z. add64 z (negsuc 0)) (ap pos (sym next) ∙ sym (add64_pos m 1 room))
    ∙ add64_cancel (pos m) (omega arith) (omega arith)

pub one_less :
    (n a b : ℕ) (h : Store) (flying : List ℕ)
    → n < 2 ^ 63
    → suc (length flying) ≤ n
    → get_active_connections h b ≡ pos (occurrences b (a ∷ flying))
    → get_active_connections (decrement_active_connections a h) b ≡ pos (occurrences b flying)
one_less n a b h flying room few count =
    let within = occurrences_le b flying in
    let e = occurrences_cons b a flying in
    elim (Bool-cases (eqb a b)) [
      | inl same ↦
          let more : occurrences b (a ∷ flying) ≡ suc (occurrences b flying) = ground arith in
          let counted = count ∙ ap pos more in
          active-decrement a b h
          ∙ rw (same, counted) (add64_back (occurrences b flying) (omega arith))
      | inr other ↦
          let no_more : occurrences b (a ∷ flying) ≡ occurrences b flying = ground arith in
          active-decrement a b h ∙ rw other (count ∙ ap pos no_more)
    ]
