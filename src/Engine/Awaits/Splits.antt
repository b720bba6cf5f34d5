-- ===== src/Engine/Awaits/Splits.antt =====
-- The handlers of app/engine.py that await the broker, each in its two parts.
use pdfsleuth.Common.{◌≡◌, String}
use pdfsleuth.Decimal.{Arith}
use pdfsleuth.Models.{Fill}
use pdfsleuth.Brokers.{Broker}
use pdfsleuth.Engine.{Engine}
use pdfsleuth.Engine.Sending.{Request, Surroundings, submit}
use pdfsleuth.Engine.Receiving.{cancel, confirm_order, on_fill}
use pdfsleuth.Engine.Awaits.{begin_submit, joined, submit_splits}
use pdfsleuth.Engine.Awaits.Handlers.{
  find_order, begin_fill, cancel_joined, confirm_joined, fill_joined, cancel_splits,
  confirm_order_splits, on_fill_splits,
}

module _ {D S : Type 0} ⦃n : Arith D⦄ (b : Broker D S) where
  -- Each of the handlers that await the broker, `submit`, `cancel`, `confirm_order` and `on_fill`, is
  -- its first part, the broker's answer and its second part, where nothing comes in between.
  pub handlers_split :
      (w : Surroundings D) (r : Request D) (id : String) (f : Fill D) (e : Engine D) (s : S)
      → (joined b w.now (begin_submit w r e) s ≡ submit b w r e s)
        × (cancel_joined b w.now id (find_order id e) e s ≡ cancel b w.now id e s)
        × (confirm_joined b w.now id (find_order id e) e s ≡ confirm_order b w.now id e s)
        × (fill_joined b w.now (begin_fill w.now f e) s ≡ on_fill b w.now f e s)
  handlers_split w r id f e s = (
    submit_splits b w r e s,
    cancel_splits b w.now id e s,
    confirm_order_splits b w.now id e s,
    on_fill_splits b w.now f e s,
  )
