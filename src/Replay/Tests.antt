-- ===== src/Replay/Tests.antt =====
-- A replay of an auction and two bids.
use onyx_p2p_auction_system.Base.{ℕ, ◌+◌, ◌^◌, none, some, List, [], ◌∷◌, ◌≡◌, refl}
use onyx_p2p_auction_system.Base.Int.{pos}
use onyx_p2p_auction_system.Base.Exec.{ok, raised, overflow_error}
use onyx_p2p_auction_system.Number.{finite, to_float, round_size}
use onyx_p2p_auction_system.Base.Bits.{bit_length, bit_length_on}
use onyx_p2p_auction_system.Event.{number, key_instance, Event, Token, blank, auction, bid}
use onyx_p2p_auction_system.Wallet.{WalletFile, stored}
use onyx_p2p_auction_system.Ledger.{Block}

abbrev my_token : Token
my_token = record { token_id = some "mine"; token_sig = some "s" }

abbrev my_wallet : WalletFile
my_wallet = stored (
    record {
      token_id = "mine";
      blinded_token_b64 = "b";
      blinding_factor_r = 7;
      token_signature_b64 = "s";
      timestamp = none;
    }
    ∷ [])

abbrev opening : Event
opening = record blank {
  kind = some auction;
  id = some (number 1);
  min_bid = some (finite (pos 5));
  token = some my_token;
}

abbrev offer : ℕ → Event
offer n = record blank {
  kind = some bid;
  auction_id = some (number 1);
  bid = some (finite (pos n));
}

abbrev history : List Block
history =
    record {
      content = record {
        height = 0;
        prev_hash = "0";
        timestamp = "t";
        events = opening ∷ offer 9 ∷ offer 7 ∷ [];
      };
      block_hash = "h";
    }
    ∷ []

-- 54 bits and more are rounded to 53, between two to the even one; what does not fit raises.
offers_round :
    (to_float (finite (pos (2 ^ 54 + 1))) ≡ ok (finite (pos (2 ^ 54))))
    × (to_float (finite (pos (2 ^ 54 + 3))) ≡ ok (finite (pos (2 ^ 54 + 4))))
    × (to_float (finite (pos (2 ^ 2098))) ≡ raised overflow_error)
unfolding to_float round_size bit_length bit_length_on
offers_round = (refl, refl, refl)
