-- ===== src/OrderBook/Nodes/Frame.antt =====
-- What the node operations leave alone: the symbol, the price band and the number of levels.
use exchange_and_feed_handle.Base.{ℕ, ◌≡◌, ◌∙◌, Bool, true, false, arith, if◌then◌else◌}
use exchange_and_feed_handle.Base.Int.{ℤ}
use exchange_and_feed_handle.Types.{Side, MdType}
use exchange_and_feed_handle.OrderBook.State.{
  OrderBook, Half, Level, Node, put_half, put_level, node, empty_level, price_in_band,
}
use exchange_and_feed_handle.OrderBook.Nodes.{
  remove_node, clear_occupied, recompute_best_after_clear, unlink, free_node,
}

-- The parts of a book that no operation changes.
pub record SameBand (b c : OrderBook) : Type 0 where
  pub symbol : c.symbol_id ≡ b.symbol_id
  pub low : c.min_price ≡ b.min_price
  pub high : c.max_price ≡ b.max_price
  pub levels : c.level_count ≡ b.level_count

pub SameBand-trans : {a b c : OrderBook} → SameBand a b → SameBand b c → SameBand a c
SameBand-trans p q = record {
  symbol = q.symbol ∙ p.symbol;
  low = q.low ∙ p.low;
  high = q.high ∙ p.high;
  levels = q.levels ∙ p.levels;
}

pub SameBand-put_half : (b : OrderBook) (side : Side) (h : Half) → SameBand b (put_half b side h)
SameBand-put_half b side h = ground arith

pub SameBand-put_level :
    (b : OrderBook) (side : Side) (idx : ℕ) (level : Level)
    → SameBand b (put_level b side idx level)
unfolding put_level
SameBand-put_level b side idx level = SameBand-put_half b side _

pub SameBand-clear_occupied :
    (b : OrderBook) (side : Side) (idx : ℕ) → SameBand b (clear_occupied b side idx)
unfolding clear_occupied recompute_best_after_clear
SameBand-clear_occupied b side idx =
    SameBand-trans (SameBand-put_half b side _) (SameBand-put_half (put_half b side _) side _)

pub SameBand-unlink : (b : OrderBook) (n : Node) → SameBand b (unlink b n)
SameBand-unlink b n = ground arith

SameBand-free_node : {b c : OrderBook} (idx : ℕ) → SameBand b c → SameBand b (free_node c idx)
unfolding free_node
SameBand-free_node idx p = record {
  symbol = p.symbol;
  low = p.low;
  high = p.high;
  levels = p.levels;
}

SameBand-if :
    {b c d : OrderBook} (t : Bool) → SameBand b c → SameBand b d → SameBand b (if t then c else d)
SameBand-if true p q = p
SameBand-if false p q = q

pub SameBand-remove_node :
    (b : OrderBook) (seq idx removed_qty : ℕ) (type : MdType)
    → SameBand b (remove_node b seq idx removed_qty type).0
unfolding remove_node
SameBand-remove_node b seq idx removed_qty type = SameBand-free_node idx (
    SameBand-if _
      (SameBand-trans
        (SameBand-trans
          (SameBand-trans (SameBand-unlink b (node b idx)) (SameBand-put_level _ _ _ empty_level))
          (SameBand-put_half _ _ _))
        (SameBand-clear_occupied _ _ _))
      (SameBand-trans (SameBand-unlink b (node b idx)) (SameBand-put_level _ _ _ _)))

pub price_in_band-same :
    {b c : OrderBook} (price : ℤ) → SameBand b c → price_in_band c price ≡ price_in_band b price
unfolding price_in_band
price_in_band-same price s = rw (s.low, s.high)
