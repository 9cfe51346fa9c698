-- ===== src/Transport/Toys.antt =====
-- A wire with one sealed text, which stands for a rotation of the group key.
use onyx_p2p_auction_system.Base.{
  ℕ, String, Option, none, some, List, [], ◌∷◌, refl, arith, str_eq, str_eq_iff, nat_eq,
  if◌then◌else◌,
}
use onyx_p2p_auction_system.Event.{blank}
use onyx_p2p_auction_system.Peer.{message}
use onyx_p2p_auction_system.Peer.Toys.{draws, peer}
use onyx_p2p_auction_system.Peer.Process.Rotates.{rotation}
use onyx_p2p_auction_system.Transport.{Wire, Receiver, LineInputs, object}
use onyx_p2p_auction_system.Transport.Sealed.{IsLine}

-- the byte 1 is the sealed text, any other a plain one
abbrev toy_decode : List ℕ → Option String
toy_decode [] = none
toy_decode (byte ∷ bytes) = if nat_eq byte 1 then some "sealed" else some "plain"

abbrev pub toy_wire : List String → Wire
toy_wire list = record {
  encode = λ text. if str_eq text "sealed" then 1 ∷ [] else 2 ∷ [];
  decode = toy_decode;
  seal = λ key nonce m. "sealed";
  unseal = λ text key. if str_eq text "sealed" then some "inner" else none;
  parse = λ text. if str_eq text "sealed" then object (message blank) else object (rotation list);
}

pub toy-IsLine :
    (list : List String) (key nonce : String) → IsLine (toy_wire list) key nonce (rotation list)
toy-IsLine list key nonce = record {
  reads = refl;
  no_empty = λ e. ground (arith, (str_eq_iff "sealed" "").1 e);
  one_line = (refl, tt);
  unseals = ("inner", refl, refl);
  envelope = (message blank, refl, refl);
}

abbrev pub toy_inputs : LineInputs
toy_inputs n = (draws, draws)

abbrev pub reader : Receiver
reader = record { buffer = []; lines = 0; client = peer }
