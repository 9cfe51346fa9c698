-- ===== src/Ca/Issue.antt =====
-- What POST /tokens does to the two tables.
use onyx_p2p_auction_system.Base.{
  ℕ, zero, suc, ◌≤◌, String, Bool, true, false, List, [], ◌∷◌, ◌++◌, map, ◌≡◌, ◌⊎◌, inl, inr, refl,
  ap, subst, ◌∙◌, arith, length, str_eq_iff,
}
use mathlib.Core.List.{append_assoc, append-nil}
use onyx_p2p_auction_system.Base.Exec.{
  Error, Result, ok, raised, resume, pure, ◌>>◌, http_404, http_422, integrity_error,
}
use onyx_p2p_auction_system.Ca.{Issued, Db, Ca, Draws}
use onyx_p2p_auction_system.Ca.Queries.{
  has_token, insert_token, increment_token_quota, add_quota, user_exists,
}
use onyx_p2p_auction_system.Ca.Rows.{UniqueTokens, UniqueTokens-append, issued_to}
use onyx_p2p_auction_system.Ca.Api.{issue, insert_tokens, issue_tokens, commit, valid_count}

module _ (fresh : ℕ → String × String) (uid : String) where
  abbrev row_of : ℕ → Issued
  row_of i = record { token_id = (fresh i).0; uid = uid; issued_at = (fresh i).1; used = 0 }

  -- the rows that the i-th draw and those behind it give
  abbrev pub drawn : ℕ → ℕ → List Issued
  drawn i zero = []
  drawn i (suc left) = row_of i ∷ drawn (suc i) left

  -- What inserting tokens comes to.
  abbrev Inserts : ℕ → ℕ → Db → Result (List String) × Db → Type 0
  Inserts i left conn out =
      ((error : Error) × (out.0 ≡ raised error))
      ⊎ ((out ≡ (
        ok (map (λ (row : Issued). row.token_id) (drawn i left)),
        record conn { tokens = conn.tokens ++ drawn i left },
      ))
          × (UniqueTokens conn.tokens → UniqueTokens (conn.tokens ++ drawn i left)))

  insert_rest :
      (i left : ℕ) (conn : Db) (out : Result (List String) × Db)
      → has_token (fresh i).0 conn.tokens ≡ false
      → Inserts (suc i) left (record conn { tokens = conn.tokens ++ row_of i ∷ [] }) out
      → Inserts i (suc left) conn (resume out.0 (λ issued. pure ((fresh i).0 ∷ issued)) out.1)
  insert_rest i left conn out new (inl (error, e)) =
      inl (error, ap (λ r. (resume r (λ issued. pure ((fresh i).0 ∷ issued)) out.1).0) e)
  insert_rest i left conn out new (inr (e, unique)) =
      let moved : (conn.tokens ++ row_of i ∷ []) ++ drawn (suc i) left
          ≡ conn.tokens ++ drawn i (suc left) =
        simp append_assoc in
      inr (
        ap
              (λ (o : Result (List String) × Db).
                resume o.0 (λ issued. pure ((fresh i).0 ∷ issued)) o.1)
              e
            ∙ rw moved refl,
        λ before.
            subst UniqueTokens moved
              (unique (UniqueTokens-append conn.tokens (row_of i) new before)),
      )

  insert_tokens-Inserts :
      (i left : ℕ) (conn : Db) → Inserts i left conn (insert_tokens fresh uid i left conn)
  unfolding insert_tokens insert_token
  insert_tokens-Inserts i zero conn = inr (simp append-nil, λ unique. rw append-nil unique)
  insert_tokens-Inserts i (suc left) conn =
      inserted (has_token (fresh i).0 conn.tokens) refl (λ c. insert_tokens-Inserts (suc i) left c)
    where
      inserted :
          (known : Bool)
          → has_token (fresh i).0 conn.tokens ≡ known
          → ((c : Db) → Inserts (suc i) left c (insert_tokens fresh uid (suc i) left c))
          → Inserts i (suc left) conn (insert_tokens fresh uid i (suc left) conn)
      inserted true e later = inl (integrity_error, rw e refl)
      inserted false e later = rw e (insert_rest i left conn _ e (later _))

  issued_to-drawn : (i left : ℕ) → issued_to uid (drawn i left) ≡ left
  unfolding issued_to
  issued_to-drawn i zero = refl
  issued_to-drawn i (suc left) = ground (arith, issued_to-drawn (suc i) left, str_eq_iff uid uid)

  length-drawn : (i left : ℕ) → length (drawn i left) ≡ left
  length-drawn i zero = refl
  length-drawn i (suc left) = ap suc (length-drawn (suc i) left)

-- What POST /tokens may come to: nothing, or so many tokens more.
pub record Added (uid : String) (count : ℕ) (ca : Ca) (out : Result (List String) × Ca)
    : Type 0 where
  pub more : List Issued
  pub answer : out.0 ≡ ok (map (λ (row : Issued). row.token_id) more)
  pub stored : out.1 ≡ record ca {
    db = record { users = add_quota uid count ca.db.users; tokens = ca.db.tokens ++ more };
  }
  pub as_many : length more ≡ count
  pub for_uid : issued_to uid more ≡ count
  pub at_least_one : 1 ≤ count
  pub at_most_hundred : count ≤ 100
  pub known : user_exists ca.db uid ≡ true
  pub unique : UniqueTokens (ca.db.tokens ++ more)

abbrev pub AllOrNothing : String → ℕ → Ca → Result (List String) × Ca → Type 0
AllOrNothing uid count ca out =
    ((error : Error) × (out.0 ≡ raised error) × (out.1 ≡ ca)) ⊎ Added uid count ca out

module _ (draws : Draws) (uid : String) (count : ℕ) (ca : Ca) where
  committed :
      (out : Result (List String) × Db)
      → valid_count count ≡ true
      → user_exists ca.db uid ≡ true
      → UniqueTokens ca.db.tokens
      → Inserts draws.fresh_token uid 0 count ca.db out
      → let ended = resume out.0 (λ issued. increment_token_quota uid count >> pure issued) out.1 in
        AllOrNothing uid count ca (commit ca ended.0 ended.1)
  unfolding increment_token_quota
  committed out valid known unique (inl (error, e)) = rw e (inl (error, refl, refl))
  committed out valid known unique (inr (e, distinct)) = rw e (
      inr (record {
        more = drawn draws.fresh_token uid 0 count;
        answer = refl;
        stored = refl;
        as_many = length-drawn draws.fresh_token uid 0 count;
        for_uid = issued_to-drawn draws.fresh_token uid 0 count;
        at_least_one = ground (arith, valid);
        at_most_hundred = ground (arith, valid);
        known = known;
        unique = distinct unique;
      }))

  -- POST /tokens is all or nothing: it raises and changes nothing, or it answers with as many ids as
  -- were asked for, between 1 and 100, of a known uid; the rows with these ids, all for this uid,
  -- are added to the table, in which no id stands twice, and the number is added to the uid's quota.
  pub issue_tokens-atomic :
      UniqueTokens ca.db.tokens → AllOrNothing uid count ca (issue_tokens draws uid count ca)
  unfolding issue_tokens issue
  issue_tokens-atomic unique = tested (valid_count count) (user_exists ca.db uid) refl refl
    where
      tested :
          (valid known : Bool)
          → valid_count count ≡ valid
          → user_exists ca.db uid ≡ known
          → AllOrNothing uid count ca (issue_tokens draws uid count ca)
      tested false known e f = rw e (inl (http_422, refl, refl))
      tested true false e f = rw (e, f) (inl (http_404, refl, refl))
      tested true true e f =
          rw (e, f)
            (committed (insert_tokens draws.fresh_token uid 0 count ca.db) e f unique
              (insert_tokens-Inserts draws.fresh_token uid 0 count ca.db))
