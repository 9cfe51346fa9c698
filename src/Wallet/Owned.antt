-- ===== src/Wallet/Owned.antt =====
-- What the wallet answers about a token that was just saved.
use onyx_p2p_auction_system.Base.{
  ℕ, String, true, Option, none, some, List, [], ◌∷◌, ◌++◌, ◌≡◌, ◌≢◌, refl, arith, str_eq,
  str_eq_iff, Bool-cases, inl, inr,
}
use onyx_p2p_auction_system.Event.{Stamp}
use onyx_p2p_auction_system.Wallet.{
  WalletEntry, WalletFile, load_wallet, save_to_wallet, owned_in, is_token_owner, factor_in,
  get_blinding_factor_r,
}

module _ (token_id : String) where
  owned_in-append :
      (xs : List WalletEntry) (entry : WalletEntry)
      → entry.token_id ≡ token_id
      → owned_in token_id (xs ++ entry ∷ []) ≡ true
  unfolding owned_in
  owned_in-append [] entry e = ground (arith, e, str_eq_iff entry.token_id token_id)
  owned_in-append (x ∷ xs) entry e = ground (arith, owned_in-append xs entry e)

  factor_in-append :
      (xs : List WalletEntry) (entry : WalletEntry)
      → entry.token_id ≡ token_id
      → factor_in token_id xs ≡ none
      → factor_in token_id (xs ++ entry ∷ []) ≡ some entry.blinding_factor_r
  unfolding factor_in
  factor_in-append [] entry e h = ground (arith, e, str_eq_iff entry.token_id token_id)
  factor_in-append (x ∷ xs) entry e h = ground (arith, h, factor_in-append xs entry e)

  module _ (blinded : String) (r : ℕ) (token_sig : String) (stamp : Option Stamp)
      (file : WalletFile) where
    abbrev entry : WalletEntry
    entry = record {
      token_id = token_id;
      blinded_token_b64 = blinded;
      blinding_factor_r = r;
      token_signature_b64 = token_sig;
      timestamp = stamp;
    }

    pub is_token_owner-save :
        token_id ≢ ""
        → is_token_owner (some token_id) (save_to_wallet token_id blinded r token_sig stamp file)
          ≡ true
    unfolding is_token_owner save_to_wallet load_wallet
    is_token_owner-save nonempty = elim (Bool-cases (str_eq token_id "")) [
      | inl same ↦ absurd (nonempty ((str_eq_iff token_id "").0 same))
      | inr other_id ↦ rw (is_token_owner, other_id) (owned_in-append (load_wallet file) entry refl)
    ]

    pub get_blinding_factor_r-save :
        get_blinding_factor_r (some token_id) file ≡ none
        → get_blinding_factor_r
            (some token_id)
            (save_to_wallet token_id blinded r token_sig stamp file)
          ≡ some r
    unfolding get_blinding_factor_r save_to_wallet load_wallet
    get_blinding_factor_r-save fresh = factor_in-append (load_wallet file) entry refl fresh
