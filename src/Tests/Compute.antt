-- ===== src/Tests/Compute.antt =====
-- What a run of the order book computes with: a test unfolds `book_code`.
use exchange_and_feed_handle.Base.Int.{to_u64, ◌-ℤ◌, ◌+ℤ◌}
use exchange_and_feed_handle.Base.Map.{insert, lookup, erase, contains as has_key}
use exchange_and_feed_handle.OrderBook.Bitmap.{
  set_bit, clear_bit, bit_width, find_highest_from, find_highest_occupied, find_lowest_from,
  find_lowest_occupied, highest_in_word, trailing_zeros,
}
use exchange_and_feed_handle.OrderBook.State.{
  open_book, price_in_band, contains, level_for, price_to_index, set_occupied, put_level,
  index_to_price,
}
use exchange_and_feed_handle.OrderBook.Nodes.{
  append_to_level, alloc_node, clear_occupied, execute_head, free_node, recompute_best_after_clear,
  remove_node,
}
use exchange_and_feed_handle.OrderBook.{
  add_order, cancel_order, add_replacement, replace_order, feed_add, feed_execute, stats,
  match_loop, crosses, rest_remainder, rest_order, match_round, execute_node,
}
use exchange_and_feed_handle.BookManager as Manager
use exchange_and_feed_handle.Risk as Risk
use exchange_and_feed_handle.Exchange as Exchange
use exchange_and_feed_handle.Exchange.Replay.{run}

unfoldable pub book_code : Unit {0}
unfolding open_book add_order cancel_order add_replacement replace_order feed_add feed_execute stats
    price_in_band contains match_loop crosses rest_remainder rest_order match_round execute_node
    append_to_level level_for alloc_node price_to_index set_occupied put_level index_to_price
    clear_occupied execute_head free_node recompute_best_after_clear remove_node to_u64 ◌-ℤ◌ ◌+ℤ◌
    insert lookup erase has_key set_bit clear_bit bit_width find_highest_from find_highest_occupied
    find_lowest_from find_lowest_occupied highest_in_word trailing_zeros
book_code = tt

-- The same for a run of the exchange.
unfoldable pub exchange_code : Unit {0}
unfolding book_code Manager.open_manager Manager.open_books Manager.symbol_ladder Manager.book
    Manager.add_order Manager.refresh_index_after_add Manager.remove_gone Manager.remove_index
    Manager.contains_order Manager.order_symbol Manager.cancel_order Manager.replace_order
    Risk.account Risk.put_account Risk.notional Risk.drop_expired Risk.check_limits
    Risk.check_command Risk.check Risk.account_after Risk.on_market_data Exchange.open_exchange
    Exchange.publish Exchange.number_events Exchange.account_for_md Exchange.run_command
    Exchange.execute Exchange.apply_sequenced Exchange.process_command run
exchange_code = book_code
