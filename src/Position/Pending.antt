-- ===== src/Position/Pending.antt =====
-- src/position.rs: the set of the orders of a position that wait for their confirmation.
use babylon_playground_demo.Common.{
  Bool-cases, ℕ, not, ◌≡◌, ap, ◌⊎◌, inl, inr, ◌∷◌, ◌||◌, if◌then◌else◌,
}
use babylon_playground_demo.Common.Result.{ok, err}
use babylon_playground_demo.Common.Table.{number_refl}
use babylon_playground_demo.Position.{
  Position, order_id_exists, order_id_not_found, contains, remove, track_pending_order,
  notify_order_finished,
}

module _ {W D : Type 0} where
  -- Either an order is refused by `track_pending_order` and can be notified as finished; or it cannot be
  -- notified as finished, and is tracked: then it is refused from there on, and when it is notified as
  -- finished the position is what it was before.
  pub track-notify :
      (id : ℕ) (p : Position W D)
      → ((track_pending_order id p ≡ err order_id_exists)
          × ((after : Position W D) × (notify_order_finished id p ≡ ok after)))
        ⊎ ((notify_order_finished id p ≡ err order_id_not_found)
            × ((after : Position W D) × ((track_pending_order id p ≡ ok after)
                  × ((track_pending_order id after ≡ err order_id_exists)
                      × (notify_order_finished id after ≡ ok p)))))
  unfolding track_pending_order notify_order_finished contains remove
  track-notify id p =
      let orders = p.pending_order_confirmations in
      let tracked = (record p { pending_order_confirmations = id ∷ orders }) in
      elim (Bool-cases (contains id orders)) [
        | inl h ↦ inl (
          ap (λ t. if t then err order_id_exists else ok tracked) h,
          (
            record p { pending_order_confirmations = remove id orders },
            ap
                (λ t.
                  if not t
                  then err order_id_not_found
                  else ok (record p { pending_order_confirmations = remove id orders }))
                h,
          ),
        )
        | inr h ↦ inr (
          ap
              (λ t.
                if not t
                then err order_id_not_found
                else ok (record p { pending_order_confirmations = remove id orders }))
              h,
          (
            tracked,
            (
              ap (λ t. if t then err order_id_exists else ok tracked) h,
              (
                ap
                    (λ t.
                      if t || contains id orders
                      then err order_id_exists
                      else ok (record tracked { pending_order_confirmations = id ∷ id ∷ orders }))
                    (number_refl id),
                ap
                    (λ t.
                      if not (t || contains id orders)
                      then err order_id_not_found
                      else ok (record p {
                        pending_order_confirmations = if t then orders else id ∷ remove id orders;
                      }))
                    (number_refl id),
              ),
            ),
          ),
        )
      ]
