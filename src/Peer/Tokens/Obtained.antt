-- ===== src/Peer/Tokens/Obtained.antt =====
-- What a peer holds once `get_token` has returned.
use onyx_p2p_auction_system.Base.{
  String, Bool, true, false, none, some, ◌≡◌, ◌≢◌, refl, subst, ◌⊎◌, inl, inr, if◌then◌else◌,
}
use onyx_p2p_auction_system.Base.Exec.{
  Exec, Error, Result, ok, raised, bind_result, plain_exception, request_error, pure, raise, lift,
  ◌>>=◌,
}
use onyx_p2p_auction_system.Event.{Token}
use onyx_p2p_auction_system.Wallet.{
  WalletFile, is_token_owner, get_blinding_factor_r, save_to_wallet,
}
use onyx_p2p_auction_system.Wallet.Owned.{is_token_owner-save, get_blinding_factor_r-save}
use onyx_p2p_auction_system.Token.{blind, unblind, verify}
use onyx_p2p_auction_system.Peer.{Client, Library, Inputs}
use onyx_p2p_auction_system.Peer.Tokens.{
  get_token, verify_token, signed_token, keep_token, require_quota,
}

module _ (library : Library) (inputs : Inputs) where
  -- The token's signature holds, and the wallet has the token with its blinding factor.
  pub record IsHeld (token : Token) (after : Client) : Type 0 where
    pub signed : verify_token library token.token_id token.token_sig ≡ ok true
    pub owned : is_token_owner token.token_id after.wallet ≡ true
    pub factor : get_blinding_factor_r token.token_id after.wallet ≡ some inputs.fresh_r

  signed_of :
      (token_sig : String)
      → verify library.encoding library.ca_key inputs.fresh_token_id token_sig ≡ ok true
      → verify_token library (some inputs.fresh_token_id) (some token_sig) ≡ ok true
  unfolding verify_token
  signed_of token_sig h = h

  checked_signature :
      (r : Result String) (f : String → Result Bool) (token_sig : String)
      → bind_result r
          (λ s. bind_result (f s) λ valid. if valid then ok s else raised plain_exception)
        ≡ ok token_sig
      → f token_sig ≡ ok true
  checked_signature (raised e) f token_sig h = absurd (cc h)
  checked_signature (ok s) f token_sig h =
      let (same, valid) = passed (f s) h in subst (λ t. f t ≡ ok true) same valid
    where
      passed :
          (answer : Result Bool)
          → bind_result answer (λ valid. if valid then ok s else raised plain_exception)
            ≡ ok token_sig
          → (s ≡ token_sig) × (answer ≡ ok true)
      passed (raised e) k = absurd (cc k)
      passed (ok false) k = absurd (cc k)
      passed (ok true) k = (cc k, refl)

  signed_token-verify :
      (token_sig : String)
      → signed_token library inputs ≡ ok token_sig
      → verify library.encoding library.ca_key inputs.fresh_token_id token_sig ≡ ok true
  unfolding signed_token
  signed_token-verify token_sig h =
      by_answer
        (library.ca_sign
          (blind library.encoding library.ca_key inputs.fresh_token_id inputs.fresh_r).0)
        h
    where
      by_answer :
          (answer : Result String)
          → bind_result answer (λ blind_sig_b64.
            bind_result
              (unblind library.encoding library.ca_key blind_sig_b64 inputs.fresh_r)
              λ token_sig_b64.
                bind_result
                  (verify library.encoding library.ca_key inputs.fresh_token_id token_sig_b64)
                  λ valid. if valid then ok token_sig_b64 else raised plain_exception)
            ≡ ok token_sig
          → verify library.encoding library.ca_key inputs.fresh_token_id token_sig ≡ ok true
      by_answer (raised e) k = absurd (cc k)
      by_answer (ok blind_sig) k =
          checked_signature (unblind library.encoding library.ca_key blind_sig inputs.fresh_r)
            (verify library.encoding library.ca_key inputs.fresh_token_id) token_sig k

  -- With a token id that is not empty and that the wallet does not have yet, `get_token` raises and
  -- leaves the peer as it was, or it returns a token whose signature verifies, which the wallet
  -- then counts as the peer's own and for which it finds the blinding factor that was used.
  pub get_token-IsHeld :
      (client : Client)
      → inputs.fresh_token_id ≢ ""
      → get_blinding_factor_r (some inputs.fresh_token_id) client.wallet ≡ none
      → let (r, after) = get_token library inputs client in
        ((error : Error) × (r ≡ raised error) × (after ≡ client))
        ⊎ ((token : Token) × (r ≡ ok token) × IsHeld token after)
  unfolding get_token keep_token require_quota
  get_token-IsHeld client nonempty fresh =
      by_steps inputs.quota_granted (signed_token library inputs) signed_token-verify
    where
      by_steps :
          (granted : Bool) (made : Result String)
          → ((token_sig : String)
              → made ≡ ok token_sig
              → verify library.encoding library.ca_key inputs.fresh_token_id token_sig ≡ ok true)
          → let m : Client → Result Token × Client =
              (if granted then pure (tt {0}) else raise request_error) >>= λ _.
              lift made >>= λ token_sig. keep_token library inputs token_sig in
            let (r, after) = m client in
            ((error : Error) × (r ≡ raised error) × (after ≡ client))
            ⊎ ((token : Token) × (r ≡ ok token) × IsHeld token after)
      by_steps false made valid = inl (request_error, refl, refl)
      by_steps true (raised error) valid = inl (error, refl, refl)
      by_steps true (ok token_sig) valid = inr (
        record { token_id = some inputs.fresh_token_id; token_sig = some token_sig },
        refl,
        record {
          signed = signed_of token_sig (valid token_sig refl);
          owned = is_token_owner-save inputs.fresh_token_id _ _ _ _ client.wallet nonempty;
          factor = get_blinding_factor_r-save inputs.fresh_token_id _ _ _ _ client.wallet fresh;
        },
      )

  -- a token that is returned has the new id
  abbrev pub IsFresh : Result Token → Type 0
  IsFresh (ok token) = token.token_id ≡ some inputs.fresh_token_id
  IsFresh (raised error) = Unit

  pub get_token-IsFresh : (c : Client) → IsFresh (get_token library inputs c).0
  unfolding get_token keep_token require_quota
  get_token-IsFresh c = by_steps inputs.quota_granted (signed_token library inputs)
    where
      by_steps :
          (granted : Bool) (made : Result String)
          → let m : Exec Client Token =
              (if granted then pure (tt {0}) else raise request_error) >>= λ _.
              lift made >>= λ token_sig. keep_token library inputs token_sig in
            IsFresh (m c).0
      by_steps false made = tt
      by_steps true (raised error) = tt
      by_steps true (ok token_sig) = refl

  -- POST /tokens succeeds, and the CA's signature unblinds to one that verifies
  pub record IsReady : Type 0 where
    pub granted : inputs.quota_granted ≡ true
    pub token_sig : String
    pub made : signed_token library inputs ≡ ok token_sig

  abbrev pub token_of : IsReady → Token
  token_of ready = record {
    token_id = some inputs.fresh_token_id;
    token_sig = some ready.token_sig;
  }

  abbrev pub wallet_of : IsReady → Client → WalletFile
  wallet_of ready client =
      save_to_wallet inputs.fresh_token_id
        (blind library.encoding library.ca_key inputs.fresh_token_id inputs.fresh_r).0
        inputs.fresh_r ready.token_sig inputs.wallet_stamp client.wallet

  pub get_token-ready :
      (ready : IsReady) (client : Client)
      → get_token library inputs client
        ≡ (ok (token_of ready), record client { wallet = wallet_of ready client })
  unfolding get_token keep_token require_quota
  get_token-ready ready client = rw (ready.granted, ready.made)
