-- ===== src/Ca/Signs.antt =====
-- What a registered user, or anybody, can have signed by the CA.
use onyx_p2p_auction_system.Base.{
  ℕ, ◌≤◌, ◌<◌, String, Bool, true, Option, some, ◌≡◌, ◌≢◌, inr, refl, arith, str_eq_iff,
}
use onyx_p2p_auction_system.Base.Int.{ℤ, pos, ◌+ℤ◌, ◌-ℤ◌}
use onyx_p2p_auction_system.Base.Exec.{Result, ok, raised, bind_result}
use onyx_p2p_auction_system.Number.{Number, lt_irrefl}
use onyx_p2p_auction_system.Event.{Stamp}
use onyx_p2p_auction_system.Token.{PublicKey, blind, unblind, verify, sign_blinded}
use onyx_p2p_auction_system.Token.Blind.{IsUnit, IsCodec, IsKeyPair, obtain, obtain-verify}
use onyx_p2p_auction_system.Peer.Process.{takes_lead, verify_timestamp_signature, signature_holds}
use onyx_p2p_auction_system.Peer.Process.Bids.{takes_lead_iff}
use onyx_p2p_auction_system.Ca.{Ca, Draws, Authority}
use onyx_p2p_auction_system.Ca.Queries.{user_exists}
use onyx_p2p_auction_system.Ca.Api.{blind_sign, timestamp, target_time}

answered :
    {A B : Type 0} (r : Result A) (f : A → Result B) (b : B)
    → bind_result r f ≡ ok b
    → (a : A) × (r ≡ ok a) × (f a ≡ ok b)
answered (ok a) f b e = (a, refl, e)
answered (raised error) f b e = absurd (cc e)

module _ (authority : Authority) where
  -- Any uid in the table gets as many signed tokens as it asks for: whatever its quota is, POST
  -- /blind_sign answers for every token id and invertible factor with a reply that unblinds to a
  -- token that `verify` accepts, and leaves the tables as they were.
  pub blind_sign-unmetered :
      (e : ℕ)
      → let key : PublicKey = record { n = authority.n; e = e } in
        0 < authority.n
        → IsCodec authority.encoding
        → IsKeyPair key authority.d
        → (ca : Ca) (uid token_id : String) (r : ℕ) → user_exists ca.db uid ≡ true
        → IsUnit authority.n r
        → (reply : String) × (sig : String) × (blind_sign authority uid
              (blind authority.encoding key token_id r).0
              ca
            ≡ (ok reply, ca))
          × (unblind authority.encoding key reply r ≡ ok sig)
          × (verify authority.encoding key token_id sig ≡ ok true)
  unfolding blind_sign obtain
  blind_sign-unmetered e positive codec key_pair ca uid token_id r known unit =
      let key : PublicKey = record { n = authority.n; e = e } in
      let (sig, obtained, valid) =
        obtain-verify authority.encoding key authority.d positive codec key_pair token_id r unit in
      let (reply, signed, unblinded) =
        answered
          (sign_blinded authority.encoding authority.n authority.d
            (blind authority.encoding key token_id r).0)
          (λ reply. unblind authority.encoding key reply r) sig obtained in
      (reply, sig, rw (known, signed) refl, unblinded, valid)

  shifted : (now goal : ℕ) → pos now +ℤ (pos goal -ℤ pos now) ≡ pos goal
  unfolding ◌+ℤ◌ ◌-ℤ◌
  shifted now goal = ground arith

  -- GET /timestamp signs any time that the client names: for every time with an ISO text there is a
  -- `delta`, with which the CA answers by a timestamp of exactly this time that
  -- `verify_timestamp_signature` accepts; and a bid with it takes the lead over an equal standing bid
  -- whose timestamp is not earlier.
  pub timestamp-backdated :
      (pss_valid : String → String → Bool) (iso_time : String → Option ℕ)
      → ((text : String) → pss_valid text (authority.sign text) ≡ true)
      → ((text : String) → authority.sign text ≢ "")
      → (draws : Draws) (ca : Ca) (goal : ℕ) (ts : String) (bid : Number) (standing : Stamp)
        (text : String) (standing_time : ℕ)
      → authority.iso_at (pos goal) ≡ some ts
      → ts ≢ ""
      → iso_time ts ≡ some goal
      → standing.iso ≡ some text
      → iso_time text ≡ some standing_time
      → goal ≤ standing_time
      → (delta : ℤ) × (stamp : Stamp) × (timestamp authority draws (some delta) ca ≡ (ok stamp, ca))
        × (verify_timestamp_signature pss_valid (some stamp) ≡ true)
        × (takes_lead iso_time (some bid) (some bid) (some standing) (some stamp) ≡ ok true)
  unfolding timestamp target_time verify_timestamp_signature signature_holds
  timestamp-backdated pss_valid iso_time valid no_empty draws ca goal ts bid standing text
        standing_time iso readable read of_text of_time earlier =
      let stamp : Stamp = record { iso = some ts; signature = some (authority.sign ts) } in
      (
        pos goal -ℤ pos draws.now,
        stamp,
        rw (shifted draws.now goal, iso) refl,
        ground (
          arith,
          valid ts,
          no_empty ts,
          readable,
          str_eq_iff ts "",
          str_eq_iff (authority.sign ts) "",
        ),
        (takes_lead_iff iso_time bid bid standing stamp standing_time goal (record {
          ex_text = text;
          new_text = ts;
          last_iso = of_text;
          new_iso = refl;
          last_read = of_time;
          new_read = read;
        })).1
            (lt_irrefl bid, inr earlier),
      )
