-- ===== src/Ca/Rows.antt =====
-- What the queries do to the rows of the two tables.
use onyx_p2p_auction_system.Base.{
  ℕ, suc, ◌+◌, ◌≤◌, String, true, false, List, [], ◌∷◌, ◌++◌, ◌≡◌, refl, arith, str_eq, str_eq_iff,
  if◌then◌else◌, All,
}
use onyx_p2p_auction_system.Ca.{User, Issued}
use onyx_p2p_auction_system.Ca.Queries.{has_uid, has_token, add_quota, without}

-- no two users with one uid
abbrev pub UniqueUsers : List User → Type 0
UniqueUsers [] = Unit
UniqueUsers (user ∷ rest) = (has_uid user.uid rest ≡ false) × UniqueUsers rest

-- no two tokens with one id
abbrev pub UniqueTokens : List Issued → Type 0
UniqueTokens [] = Unit
UniqueTokens (row ∷ rest) = (has_token row.token_id rest ≡ false) × UniqueTokens rest

-- how many tokens were issued to a uid
unfoldable pub issued_to : String → List Issued → ℕ
issued_to uid [] = 0
issued_to uid (row ∷ rest) =
    let others = issued_to uid rest in if str_eq row.uid uid then suc others else others

pub has_uid-append :
    (uid : String) (users : List User) (user : User)
    → has_uid uid (users ++ user ∷ [])
      ≡ (if has_uid uid users then true else if str_eq user.uid uid then true else false)
unfolding has_uid
has_uid-append uid [] user = ground arith
has_uid-append uid (first ∷ rest) user = ground (arith, has_uid-append uid rest user)

pub UniqueUsers-append :
    (users : List User) (user : User)
    → has_uid user.uid users ≡ false
    → UniqueUsers users
    → UniqueUsers (users ++ user ∷ [])
unfolding has_uid
UniqueUsers-append [] user new unique = (refl, tt)
UniqueUsers-append (first ∷ rest) user new unique = (
  ground (
    arith,
    has_uid-append first.uid rest user,
    str_eq_iff first.uid user.uid,
    str_eq_iff user.uid first.uid,
  ),
  UniqueUsers-append rest user (ground arith) unique.1,
)

has_token-append :
    (tid : String) (rows : List Issued) (row : Issued)
    → has_token tid (rows ++ row ∷ [])
      ≡ (if has_token tid rows then true else if str_eq row.token_id tid then true else false)
unfolding has_token
has_token-append tid [] row = ground arith
has_token-append tid (first ∷ rest) row = ground (arith, has_token-append tid rest row)

pub UniqueTokens-append :
    (rows : List Issued) (row : Issued)
    → has_token row.token_id rows ≡ false
    → UniqueTokens rows
    → UniqueTokens (rows ++ row ∷ [])
unfolding has_token
UniqueTokens-append [] row new unique = (refl, tt)
UniqueTokens-append (first ∷ rest) row new unique = (
  ground (
    arith,
    has_token-append first.token_id rest row,
    str_eq_iff first.token_id row.token_id,
    str_eq_iff row.token_id first.token_id,
  ),
  UniqueTokens-append rest row (ground arith) unique.1,
)

has_uid-add_quota :
    (uid other : String) (amount : ℕ) (users : List User)
    → has_uid uid (add_quota other amount users) ≡ has_uid uid users
unfolding has_uid add_quota
has_uid-add_quota uid other amount [] = refl
has_uid-add_quota uid other amount (first ∷ rest) =
    ground (arith, has_uid-add_quota uid other amount rest)

pub UniqueUsers-add_quota :
    (uid : String) (amount : ℕ) (users : List User)
    → UniqueUsers users
    → UniqueUsers (add_quota uid amount users)
unfolding add_quota
UniqueUsers-add_quota uid amount [] unique = tt
UniqueUsers-add_quota uid amount (first ∷ rest) unique = ground (
  arith,
  has_uid-add_quota first.uid uid amount rest,
  UniqueUsers-add_quota uid amount rest unique.1,
)

pub has_uid-without :
    (uid gone : String) (users : List User)
    → has_uid uid (without gone users) ≡ (if str_eq gone uid then false else has_uid uid users)
unfolding has_uid without
has_uid-without uid gone [] = ground arith
has_uid-without uid gone (first ∷ rest) = ground (
  arith,
  has_uid-without uid gone rest,
  str_eq_iff first.uid uid,
  str_eq_iff first.uid gone,
  str_eq_iff gone uid,
)

pub UniqueUsers-without :
    (gone : String) (users : List User) → UniqueUsers users → UniqueUsers (without gone users)
unfolding without
UniqueUsers-without gone [] unique = tt
UniqueUsers-without gone (first ∷ rest) unique =
    ground (arith, has_uid-without first.uid gone rest, UniqueUsers-without gone rest unique.1)

pub issued_to-append :
    (uid : String) (rows more : List Issued)
    → issued_to uid (rows ++ more) ≡ issued_to uid rows + issued_to uid more
unfolding issued_to
issued_to-append uid [] more = omega arith
issued_to-append uid (first ∷ rest) more = ground (arith, issued_to-append uid rest more)

-- Nobody's quota counts more tokens than were issued to him.
abbrev pub Covered : List Issued → List User → Type 0
Covered rows = All (λ (user : User). user.token_quota ≤ issued_to user.uid rows)

pub Covered-add_quota :
    (uid : String) (amount : ℕ) (rows more : List Issued) (users : List User)
    → issued_to uid more ≡ amount
    → Covered rows users
    → Covered (rows ++ more) (add_quota uid amount users)
unfolding add_quota
Covered-add_quota uid amount rows more [] e covered = tt
Covered-add_quota uid amount rows more (first ∷ rest) e covered = ground (
  arith,
  str_eq_iff first.uid uid,
  issued_to-append first.uid rows more,
  Covered-add_quota uid amount rows more rest e covered.1,
)

pub Covered-without :
    (gone : String) (rows : List Issued) (users : List User)
    → Covered rows users
    → Covered rows (without gone users)
unfolding without
Covered-without gone rows [] covered = tt
Covered-without gone rows (first ∷ rest) covered =
    ground (arith, Covered-without gone rows rest covered.1)
