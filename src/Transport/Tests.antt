-- ===== src/Transport/Tests.antt =====
-- Lines and chunks of a few bytes.
use onyx_p2p_auction_system.Base.{
  ℕ, none, List, [], ◌∷◌, ◌≡◌, ◌≢◌, refl, ap, All, length, arith, str_eq_iff,
}
use onyx_p2p_auction_system.Peer.Toys.{toy, draws, peer}
use onyx_p2p_auction_system.Transport.{newline, split_line, receive, handle_line}
use onyx_p2p_auction_system.Transport.Lines.{IsPart, read_lines}
use onyx_p2p_auction_system.Transport.Chunks.{receive_all, receive-IsPart, receive_all-mixed}
use onyx_p2p_auction_system.Transport.Sealed.{handle_line-hijacked}
use onyx_p2p_auction_system.Transport.Toys.{toy_wire, toy_inputs, reader}

receive-IsPart_example :
    let after = receive toy (toy_wire []) toy_inputs (1 ∷ newline ∷ 2 ∷ []) reader in
    IsPart after.buffer × (split_line after.buffer ≡ none)
receive-IsPart_example =
    receive-IsPart toy (toy_wire []) toy_inputs (1 ∷ newline ∷ 2 ∷ []) reader tt

abbrev head_of : List ℕ → ℕ
head_of [] = 0
head_of (b ∷ rest) = b

receive_all-mixed_example :
    (receive_all toy
        (toy_wire [])
        toy_inputs
        ((1 ∷ []) ∷ (3 ∷ newline ∷ []) ∷ (2 ∷ newline ∷ []) ∷ [])
        reader
      ≡ read_lines toy (toy_wire []) toy_inputs ((1 ∷ 3 ∷ []) ∷ (2 ∷ []) ∷ []) reader)
    × All (λ (line : List ℕ). (line ≢ 1 ∷ 2 ∷ []) × (line ≢ 3 ∷ [])) ((1 ∷ 3 ∷ []) ∷ (2 ∷ []) ∷ [])
receive_all-mixed_example =
    receive_all-mixed toy (toy_wire []) toy_inputs (1 ∷ []) (2 ∷ []) (3 ∷ []) reader refl (refl, tt)
      (refl, tt) (refl, tt) (λ e. omega (arith, ap length e)) (λ e. omega (arith, ap head_of e))

handle_line-hijacked_example :
    handle_line toy (toy_wire ("mine" ∷ [])) (draws, draws) (2 ∷ []) peer
    ≡ record peer { group_key = "mine" }
handle_line-hijacked_example =
    handle_line-hijacked toy (toy_wire ("mine" ∷ [])) draws draws (2 ∷ []) "plain" "mine" "mine"
      peer refl (λ e. ground (arith, (str_eq_iff "plain" "").1 e)) refl refl refl
