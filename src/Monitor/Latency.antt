-- ===== src/Monitor/Latency.antt =====
-- The latencies that a peer keeps.
use onyx_p2p_auction_system.Base.{
  ℕ, zero, suc, ◌+◌, ◌-◌, ◌≤◌, Bool, true, false, List, [], ◌∷◌, ◌++◌, ◌≡◌, refl, sym, ap, ◌∙◌,
  arith, ◌⊎◌, inl, inr, length, length-append, ltb, if◌then◌else◌,
}
use mathlib.Core.List.{append_assoc, append-nil}
use onyx_p2p_auction_system.Monitor.{Metrics, record_latency, without_first}

module _ {A : Type 0} where
  -- without the first n
  abbrev pub drop : ℕ → List A → List A
  drop zero xs = xs
  drop (suc n) [] = []
  drop (suc n) (x ∷ xs) = drop n xs

  -- one latency after the other
  pub record_all : List A → Metrics A → Metrics A
  record_all [] metrics = metrics
  record_all (x ∷ xs) metrics = record_all xs (record_latency x metrics)

  drop-snoc :
      (n : ℕ) (xs : List A) (x : A) → n ≤ length xs → drop n (xs ++ x ∷ []) ≡ drop n xs ++ x ∷ []
  drop-snoc zero xs x h = refl
  drop-snoc (suc n) [] x h = absurd (omega arith)
  drop-snoc (suc n) (y ∷ xs) x h = drop-snoc n xs x (omega arith)

  length-drop : (n : ℕ) (xs : List A) → length (drop n xs) ≡ length xs - n
  length-drop zero xs = omega arith
  length-drop (suc n) [] = omega arith
  length-drop (suc n) (x ∷ xs) = omega (arith, length-drop n xs)

  first-drop : (n : ℕ) (xs : List A) → without_first (drop n xs) ≡ drop (suc n) xs
  unfolding without_first
  first-drop zero [] = refl
  first-drop zero (x ∷ xs) = refl
  first-drop (suc n) [] = refl
  first-drop (suc n) (x ∷ xs) = first-drop n xs

  -- the last hundred
  abbrev pub last_hundred : List A → List A
  last_hundred xs = drop (length xs - 100) xs

  record_latency-last :
      (seen : List A) (x : A) (metrics : Metrics A)
      → metrics.msg_processing_latency ≡ last_hundred seen
      → (record_latency x metrics).msg_processing_latency ≡ last_hundred (seen ++ x ∷ [])
  unfolding record_latency
  record_latency-last seen x metrics e =
      let k = length seen - 100 in
      let ys = seen ++ x ∷ [] in
      let grown : metrics.msg_processing_latency ++ x ∷ [] ≡ drop k ys =
        rw e (sym (drop-snoc k seen x (omega arith))) in
      rw grown (
        by_size k ys (length-drop k ys) (ltb 100 (length (drop k ys))) refl
          (omega (arith, length-append seen (x ∷ []))))
    where
      by_size :
          (k : ℕ) (ys : List A)
          → length (drop k ys) ≡ length ys - k
          → (over : Bool) → ltb 100 (length (drop k ys)) ≡ over
          → (k + 1 ≡ length ys - 100) ⊎ ((k ≡ 0) × (length ys ≤ 100))
          → (if over then without_first (drop k ys) else drop k ys) ≡ last_hundred ys
      by_size k ys size true e (inl full) =
          let cut : suc k ≡ length ys - 100 = omega (arith, full) in
          first-drop k ys ∙ ap (λ n. drop n ys) cut
      by_size k ys size true e (inr (none_left, few)) =
          absurd (ground (arith, size, e, none_left, few))
      by_size k ys size false e (inl full) = absurd (ground (arith, size, e, full))
      by_size k ys size false e (inr (none_left, few)) =
          let cut : k ≡ length ys - 100 = omega (arith, none_left, few) in ap (λ n. drop n ys) cut

  record_all-from :
      (latencies seen : List A) (metrics : Metrics A)
      → metrics.msg_processing_latency ≡ last_hundred seen
      → (record_all latencies metrics).msg_processing_latency ≡ last_hundred (seen ++ latencies)
  unfolding record_all
  record_all-from [] seen metrics e = e ∙ ap last_hundred (sym (append-nil seen))
  record_all-from (x ∷ xs) seen metrics e =
      record_all-from xs (seen ++ x ∷ []) (record_latency x metrics)
        (record_latency-last seen x metrics e)
      ∙ ap last_hundred (append_assoc seen (x ∷ []) xs)

  -- After any latencies the metrics hold the last hundred of them in their order, all of them if
  -- there are no more, so never more than a hundred.
  pub record_all-last_hundred :
      (latencies : List A) (metrics : Metrics A)
      → metrics.msg_processing_latency ≡ []
      → ((record_all latencies metrics).msg_processing_latency ≡ last_hundred latencies)
        × (length (record_all latencies metrics).msg_processing_latency ≤ 100)
  record_all-last_hundred latencies metrics e =
      let kept = record_all-from latencies [] metrics e in
      (kept, omega (arith, ap length kept, length-drop (length latencies - 100) latencies))
