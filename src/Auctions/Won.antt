-- ===== src/Auctions/Won.antt =====
-- The deal keys of the auctions that end: "winning_auction".
use onyx_p2p_auction_system.Base.{String, none, some, ◌≡◌, refl, arith, ◌∙◌}
use onyx_p2p_auction_system.Base.Dict.{lookup-insert_self, lookup-erase}
use onyx_p2p_auction_system.Event.{AuctionKey, key_instance, key_beq_iff}
use onyx_p2p_auction_system.Auctions.{
  Auctions, deal_key, add_winning_key, remove_winning_key, get_winning_key,
}

module _ (key : AuctionKey) (crypto_key : String) (auctions : Auctions) where
  pub get_winning_key-add :
      get_winning_key (some key) (add_winning_key key crypto_key auctions)
      ≡ some (deal_key crypto_key)
  unfolding get_winning_key add_winning_key
  get_winning_key-add = lookup-insert_self key (deal_key crypto_key) auctions.winning_auction

  pub get_winning_key-remove : get_winning_key (some key) (remove_winning_key key auctions) ≡ none
  unfolding get_winning_key remove_winning_key
  get_winning_key-remove =
      lookup-erase key key auctions.winning_auction ∙ ground (arith, key_beq_iff key key)

  pub add_winning_key-list :
      (add_winning_key key crypto_key auctions).auction_list ≡ auctions.auction_list
  unfolding add_winning_key
  add_winning_key-list = refl
