-- ===== src/Peer/Toys.antt =====
-- A peer to run the handlers on, with readable stand-ins for what is outside.
use onyx_p2p_auction_system.Base.{ℕ, String, true, false, Option, none, some, [], ◌∷◌, refl}
use onyx_p2p_auction_system.Base.Int.{pos, ◌+ℤ◌, ◌-ℤ◌, ◌*ℤ◌}
use onyx_p2p_auction_system.Base.Exec.{ok}
use onyx_p2p_auction_system.Number.{finite}
use onyx_p2p_auction_system.Event.{number, Stamp}
use onyx_p2p_auction_system.Auctions.{Auctions, Entry, nothing, no_auctions}
use onyx_p2p_auction_system.Wallet.{absent}
use onyx_p2p_auction_system.Ledger.{saved, new_ledger}
use onyx_p2p_auction_system.Ledger.Sound.{genesis-IsSound}
use onyx_p2p_auction_system.Token.{blind, unblind, verify}
use onyx_p2p_auction_system.Token.Letters.{letter_encoding, small_key, letters}
use onyx_p2p_auction_system.Peer.{Client, Library, Inputs}
use onyx_p2p_auction_system.Peer.Tokens.{signed_token}
use onyx_p2p_auction_system.Peer.Tokens.Obtained.{IsReady}
use onyx_p2p_auction_system.Peer.Process.Ledgers.{HasSoundLedger}

abbrev pub time_of : String → Option ℕ
time_of s = some 5

abbrev pub toy : Library
toy = record {
  encoding = letter_encoding;
  ca_key = small_key;
  digest = λ content. content.timestamp;
  pss_valid = λ iso sig. true;
  iso_time = time_of;
  local_date = λ time. some "date";
  gcm_seal = λ key nonce payload. ("c", "t");
  gcm_open = λ key nonce ciphertext tag. none;
  rsa_encrypt = λ key text. some text;
  rsa_decrypt = λ key text. some text;
  seal_identity = λ uid cert id nonce. "sealed";
  cert_encode = λ cert. cert;
  cert_decode = λ cert. some cert;
  cert_readable = λ cert. true;
  ca_sign = λ blinded. ok (letters 2);
}

abbrev pub draws : Inputs
draws = record {
  now = 100;
  utc = "t1";
  quota_granted = true;
  fresh_token_id = "u";
  fresh_r = 7;
  wallet_stamp = none;
  stamp = none;
  fresh_key = "k";
  fresh_nonce = "n";
  identity_nonce = "i";
  random_id = 3;
  fresh_private_key = "p";
  fresh_public_key = "q";
}

abbrev pub stamped_now : Stamp
stamped_now = record { iso = some "now"; signature = some "sig" }

abbrev pub open_entry : Entry
open_entry = record {
  highest_bid = some (finite (pos 5));
  my_bid = false;
  closing_date = some 200;
  auction_token_data = nothing;
  finished = false;
  public_key = none;
  last_bid_token_data = nothing;
  timestamp = none;
}

abbrev pub one_auction : Auctions
one_auction = record no_auctions { auction_list = (number 1, open_entry) ∷ [] }

abbrev pub peer : Client
peer = record {
  uuid = "me";
  cert_pem = "cert";
  private_key = "key";
  group_key = "group";
  wallet = absent;
  ledger_request_id = some 3;
  ledger = new_ledger toy.digest "t0";
  ledger_file = saved (new_ledger toy.digest "t0").chain;
  auctions = one_auction;
  outbox = [];
}

pub peer-IsSound : HasSoundLedger toy peer
peer-IsSound = genesis-IsSound toy.digest "t0"

pub draws-IsReady : IsReady toy draws
unfolding signed_token blind unblind verify ◌-ℤ◌ ◌*ℤ◌ ◌+ℤ◌
draws-IsReady = record { granted = refl; token_sig = letters 11; made = refl }
