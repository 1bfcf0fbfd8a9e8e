-- ===== src/Generator/Applied.antt =====
-- Each `_apply_…` method, called as its `_build_…_event` calls it, returns an event and keeps the
-- stock.
use smart_warehouse_platform.Prelude.{
  String, ℤ, pos, Bool, true, false, ◌≤ℤ◌, ltb_ℤ, ◌<ℤ◌, min_ℤ, some, ◌≡◌, refl, arith,
}
use smart_warehouse_platform.Domain.Value.{Fields}
use smart_warehouse_platform.Generator.State.{
  SimulatedInventory, Zone, zone_name, Simulation, Source,
}
use smart_warehouse_platform.Generator.Draws.{new_uuid, pure, look, ◌>>=◌}
use smart_warehouse_platform.Generator.Stock.{
  get_position, update_position, zone_remaining_capacity,
}
use smart_warehouse_platform.Generator.Logic.{
  Triple, Triple-bind, Triple-pure, Triple-look, Triple-weaken, Triple-if, Triple-given,
}
use smart_warehouse_platform.Generator.Chance.{Triple-new_uuid}
use smart_warehouse_platform.Generator.ZoneTotals.{zone_total-refreshed}
use smart_warehouse_platform.Generator.Held.{
  IsSteady, Holds, Triple-get_position, Triple-get_this, Triple-update, Triple-update_any,
  IsSteady-update, position_of-IsSound, take_available-IsSound, take_manual-IsSound,
  add_available-IsSound, add_manual-IsSound, default_supplier-IsSound,
}
use smart_warehouse_platform.Generator.Shapes.{
  HasShape, shipped-HasShape, reserved-HasShape, released-HasShape, counted-HasShape,
  moved-HasShape, received-HasShape,
}
use smart_warehouse_platform.Generator.Apply.{
  event_record, add_available, take_available, add_manual, take_manual, default_supplier,
  apply_receive, apply_ship, apply_move, apply_reserve, apply_release, apply_count,
}

-- The record begins with an id, a type and a time.
abbrev pub IsEvent : Fields → Type 0
IsEvent event =
    (event_id : String) × (event_type : String) × (occurred_at : ℤ) × (rest : Fields) × (event
      ≡ event_record event_id event_type occurred_at rest)

abbrev pub EventAndSteady : Fields → Simulation → Type 0
EventAndSteady event sim = IsSteady sim × IsEvent event × HasShape event

-- There are so many pieces, available or reserved by hand.
abbrev pub HasAvailable : ℤ → SimulatedInventory → Type 0
HasAvailable n position = n ≤ℤ position.available

abbrev pub HasManual : ℤ → SimulatedInventory → Type 0
HasManual n position = n ≤ℤ position.reserved_manual

-- There is room in the zone.
abbrev pub HasRoom : Zone → Simulation → Type 0
HasRoom zone sim = IsSteady sim × (pos 0 <ℤ zone_remaining_capacity zone sim.inventory)

Triple-get_room :
    (zone : Zone) (p z : String)
    → Triple (HasRoom zone) (get_position p z) (λ position. HasRoom zone)
unfolding get_position update_position zone_remaining_capacity
Triple-get_room zone p z = record {
  run = λ sim h. (
    IsSteady-update p z (λ position. position) sim h.0 (position_of-IsSound p z sim h.0),
    rw (zone_total-refreshed (zone_name zone) p z sim.inventory) h.1,
  );
}

pub Triple-look_room :
    (zone : Zone)
    → Triple
        (HasRoom zone)
        (look (λ sim. zone_remaining_capacity zone sim.inventory))
        (λ remaining sim. HasRoom zone sim × (pos 0 <ℤ remaining))
Triple-look_room zone = Triple-look _ (λ sim h. (h, h.1))

pub min_positive :
    (a b : ℤ) → pos 0 <ℤ a → pos 0 <ℤ b → (pos 0 ≤ℤ min_ℤ a b) × (ltb_ℤ (pos 0) (min_ℤ a b) ≡ true)
min_positive a b h k = ground arith

pub not_both : {b : Bool} → b ≡ true → b ≡ false → ⊥
not_both h k = ground arith

module _ (source : Source) (event_time : ℤ) where
  -- The end of every method.
  pub Triple-event :
      (event_type : String) (rest : Fields)
      → ((event_id : String) → HasShape (event_record event_id event_type event_time rest))
      → Triple IsSteady
          (new_uuid source >>= λ event_id. pure (event_record event_id event_type event_time rest))
          EventAndSteady
  Triple-event event_type rest shape =
      Triple-bind (Triple-new_uuid source (λ sim drawn issued h. h)) (λ event_id.
        Triple-pure _
          (λ sim h. (h, (event_id, event_type, event_time, rest, refl), shape event_id)))

  pub apply_ship-IsSteady :
      (p z : String) (n : ℤ)
      → Triple (Holds (HasAvailable n) p z) (apply_ship source event_time p z n) EventAndSteady
  unfolding apply_ship
  apply_ship-IsSteady p z n = Triple-bind (Triple-get_position p z (HasAvailable n) p z) (λ got.
      Triple-bind
        (Triple-update p z (take_available n) (HasAvailable n) (λ position. Unit)
          (λ position h k. (take_available-IsSound n position h k, tt)))
        (λ done.
          Triple-weaken (λ sim h. h.0)
            (Triple-event _ _ (λ i. shipped-HasShape i event_time p z n))))

  pub apply_reserve-IsSteady :
      (p z : String) (n : ℤ)
      → pos 0 ≤ℤ n
      → Triple (Holds (HasAvailable n) p z) (apply_reserve source event_time p z n) EventAndSteady
  unfolding apply_reserve
  apply_reserve-IsSteady p z n n≥0 =
      Triple-bind (Triple-get_position p z (HasAvailable n) p z) (λ got.
        Triple-bind
          (Triple-update p z (take_available n) (HasAvailable n) (λ position. Unit)
            (λ position h k. (take_available-IsSound n position h k, tt)))
          (λ done.
            Triple-weaken (λ sim h. h.0)
              (Triple-bind
                (Triple-update_any p z (add_manual n)
                  (λ position h. add_manual-IsSound n position h n≥0))
                (λ done. Triple-event _ _ (λ i. reserved-HasShape i event_time p z n)))))

  pub apply_release-IsSteady :
      (p z : String) (n : ℤ)
      → pos 0 ≤ℤ n
      → Triple (Holds (HasManual n) p z) (apply_release source event_time p z n) EventAndSteady
  unfolding apply_release
  apply_release-IsSteady p z n n≥0 = Triple-bind (Triple-get_position p z (HasManual n) p z) (λ got.
      Triple-bind
        (Triple-update p z (take_manual n) (HasManual n) (λ position. Unit)
          (λ position h k. (take_manual-IsSound n position h k, tt)))
        (λ done.
          Triple-weaken (λ sim h. h.0)
            (Triple-bind
              (Triple-update_any p z (add_available n)
                (λ position h. add_available-IsSound n position h n≥0))
              (λ done. Triple-event _ _ (λ i. released-HasShape i event_time p z n)))))

  pub apply_count-IsSteady :
      (p z : String) (n : ℤ)
      → pos 0 ≤ℤ n
      → Triple IsSteady (apply_count source event_time p z n) EventAndSteady
  unfolding apply_count
  apply_count-IsSteady p z n n≥0 = Triple-bind (Triple-get_this p z) (λ got.
      Triple-weaken (λ sim h. h.0)
        (Triple-bind
          (Triple-update_any p z (λ position. record position { available = n })
            (λ position h. ground (arith, h, n≥0)))
          (λ done. Triple-event _ _ (λ i. counted-HasShape i event_time p z n))))

  pub apply_move-IsSteady :
      (p from_zone_id to_zone_id : String) (n : ℤ)
      → pos 0 ≤ℤ n
      → Triple
          (Holds (HasAvailable n) p from_zone_id)
          (apply_move source event_time p from_zone_id to_zone_id n)
          EventAndSteady
  unfolding apply_move
  apply_move-IsSteady p a b n n≥0 =
      Triple-bind (Triple-get_position p a (HasAvailable n) p a) (λ got.
        Triple-bind (Triple-get_position p a (HasAvailable n) p b) (λ got.
          Triple-bind
            (Triple-update p a (take_available n) (HasAvailable n) (λ position. Unit)
              (λ position h k. (take_available-IsSound n position h k, tt)))
            (λ done.
              Triple-weaken (λ sim h. h.0)
                (Triple-bind
                  (Triple-update_any p b (add_available n)
                    (λ position h. add_available-IsSound n position h n≥0))
                  (λ done. Triple-bind (Triple-get_this p a) (λ source_position.
                    Triple-weaken (λ sim h. h.0)
                      (Triple-bind
                        (Triple-update_any p b (default_supplier source_position.supplier_id)
                          (default_supplier-IsSound source_position.supplier_id))
                        (λ done. Triple-event _ _ (λ i. moved-HasShape i event_time p a n b)))))))))

  pub apply_receive-IsSteady :
      (p supplier_id : String) (zone : Zone) (n : ℤ)
      → pos 0 <ℤ n
      → Triple (HasRoom zone) (apply_receive source event_time p zone n supplier_id) EventAndSteady
  unfolding apply_receive
  apply_receive-IsSteady p supplier_id zone n n>0 =
      Triple-bind (Triple-get_room zone p (zone_name zone)) (λ got.
        Triple-bind (Triple-look_room zone) (λ remaining.
          Triple-given (λ sim h. h.1)
            (λ room.
              Triple-weaken (λ sim h. h.0.0)
                (Triple-if
                  (λ e.
                    Triple-bind
                      (Triple-update_any p (zone_name zone) (add_available (min_ℤ n remaining))
                        (λ position h.
                          add_available-IsSound (min_ℤ n remaining) position h
                            (min_positive n remaining n>0 room).0))
                      (λ done.
                        Triple-bind
                          (Triple-update_any p (zone_name zone)
                            (λ position. record position { supplier_id = some supplier_id })
                            (λ position h. h))
                          (λ done. Triple-event _ _ (λ i.
                            received-HasShape i event_time p (zone_name zone) (min_ℤ n remaining)
                              supplier_id))))
                  (λ e. elim (not_both (min_positive n remaining n>0 room).1 e) [ ])))))
