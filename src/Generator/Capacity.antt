-- ===== src/Generator/Capacity.antt =====
-- A generated receipt fills no zone beyond its capacity.
use smart_warehouse_platform.Prelude.{
  String, ℕ, ℤ, pos, ◌+ℤ◌, ◌-ℤ◌, ◌≤ℤ◌, ◌<ℤ◌, +ℤ_parts, -ℤ_parts, parts_of_eq, min_ℤ, max_ℤ, Bool,
  true, false, some, Bool-cases, inl, inr, ◌≡◌, refl, arith, int_laws, if◌then◌else◌,
}
use smart_warehouse_platform.Prelude.Eq.{◌==◌, string_eq}
use smart_warehouse_platform.Domain.Value.{Fields}
use smart_warehouse_platform.Generator.State.{
  SimulatedInventory, total, Zone, live_a, live_b, live_c, zone_name, zone_capacity, Simulation,
  Source,
}
use smart_warehouse_platform.Generator.Stock.{
  position_of, put_position, update_position, get_position, zone_total, zone_remaining_capacity,
}
use smart_warehouse_platform.Generator.Logic.{
  Post-get, Triple, Triple-bind, Triple-pure, Triple-look, Triple-change, Triple-given, Triple-if,
}
use smart_warehouse_platform.Generator.Chance.{Triple-new_uuid}
use smart_warehouse_platform.Generator.ZoneTotals.{
  share, zone_total-put_position, zone_total-refreshed,
}
use smart_warehouse_platform.Generator.Applied.{min_positive, not_both}
use smart_warehouse_platform.Generator.Apply.{add_available, apply_receive}

-- No zone holds more than its capacity.
abbrev pub AreWithin : Simulation → Type 0
AreWithin sim =
    (zone : Zone) → zone_total (zone_name zone) sim.inventory ≤ℤ pos (zone_capacity zone)

add_total :
    (n : ℤ) (position : SimulatedInventory) → total (add_available n position) ≡ total position +ℤ n
add_total n position = grind int_laws

-- The total after `n` pieces are added to a position.
grown :
    (t' t s n : ℤ) (capacity : ℕ) (same : Bool)
    → t' +ℤ (if same then s else pos 0) ≡ t +ℤ (if same then s +ℤ n else pos 0)
    → t ≤ℤ pos capacity
    → (same ≡ true → n ≤ℤ max_ℤ (pos capacity -ℤ t) (pos 0))
    → t' ≤ℤ pos capacity
grown t' t s n capacity true h fits k = ground (
  arith,
  +ℤ_parts t' s,
  +ℤ_parts s n,
  +ℤ_parts t (s +ℤ n),
  -ℤ_parts (pos capacity) t,
  parts_of_eq h,
  k refl,
  fits,
)
grown t' t s n capacity false h fits k =
    ground (arith, +ℤ_parts t' (pos 0), +ℤ_parts t (pos 0), parts_of_eq h, fits)

kept_total :
    (t' t s s' : ℤ) (capacity : ℕ)
    → s' ≡ s
    → t' +ℤ s ≡ t +ℤ s'
    → t ≤ℤ pos capacity
    → t' ≤ℤ pos capacity
kept_total t' t s s' capacity e h fits =
    ground (arith, +ℤ_parts t' s, +ℤ_parts t s', parts_of_eq h, parts_of_eq e, fits)

same_share :
    (zone z : String) (a b : SimulatedInventory)
    → total a ≡ total b
    → share zone z a ≡ share zone z b
same_share zone z a b h = elim (Bool-cases (z == zone)) [ inl e ↦ rw e h | inr e ↦ rw e refl ]

at_most_self : (a : ℤ) → a ≤ℤ a
at_most_self a = ground arith

below_both : (a b c : ℤ) → b ≤ℤ c → min_ℤ a b ≤ℤ c
below_both a b c h = ground arith

same_zone : (a b : Zone) → (zone_name a == zone_name b) ≡ true → a ≡ b
same_zone live_a live_a h = refl
same_zone live_a live_b h = ground arith
same_zone live_a live_c h = ground arith
same_zone live_b live_a h = ground arith
same_zone live_b live_b h = refl
same_zone live_b live_c h = ground arith
same_zone live_c live_a h = ground arith
same_zone live_c live_b h = ground arith
same_zone live_c live_c h = refl

-- There is room for `n` pieces in the zone.
abbrev HasRoomFor : Zone → ℤ → Simulation → Type 0
HasRoomFor zone n sim = AreWithin sim × (n ≤ℤ zone_remaining_capacity zone sim.inventory)

add_available-AreWithin :
    (p : String) (zone : Zone) (n : ℤ) (sim : Simulation)
    → HasRoomFor zone n sim
    → AreWithin (update_position p (zone_name zone) (add_available n) sim)
unfolding update_position zone_remaining_capacity
add_available-AreWithin p zone n sim h other =
    let here = position_of p (zone_name zone) sim.inventory in
    grown
      (zone_total (zone_name other)
        (put_position p (zone_name zone) (add_available n here) sim.inventory))
      (zone_total (zone_name other) sim.inventory) (total here) n (zone_capacity other)
      (zone_name zone == zone_name other)
      (rw⁻¹ (add_total n here) (
        zone_total-put_position (zone_name other) p (zone_name zone) (add_available n here)
          sim.inventory))
      (h.0 other) (λ e. rw⁻¹ (same_zone zone other e) h.1)

-- A step that keeps the total of a position.
same_total-AreWithin :
    (p z : String) (f : SimulatedInventory → SimulatedInventory) (sim : Simulation)
    → ((position : SimulatedInventory) → total (f position) ≡ total position)
    → AreWithin sim
    → AreWithin (update_position p z f sim)
unfolding update_position
same_total-AreWithin p z f sim same h zone =
    let here = position_of p z sim.inventory in
    kept_total (zone_total (zone_name zone) (put_position p z (f here) sim.inventory))
      (zone_total (zone_name zone) sim.inventory) (share (zone_name zone) z here)
      (share (zone_name zone) z (f here)) (zone_capacity zone)
      (same_share (zone_name zone) z (f here) here (same here))
      (zone_total-put_position (zone_name zone) p z (f here) sim.inventory) (h zone)

get_position-AreWithin :
    (p z : String) (zone : Zone) (n : ℤ)
    → Triple
        (λ sim. AreWithin sim × (pos 0 <ℤ zone_remaining_capacity zone sim.inventory))
        (get_position p z)
        (λ position sim. AreWithin sim × (pos 0 <ℤ zone_remaining_capacity zone sim.inventory))
unfolding get_position update_position zone_remaining_capacity
get_position-AreWithin p z zone n = record {
  run = λ sim h. (
    λ other. rw (zone_total-refreshed (zone_name other) p z sim.inventory) (h.0 other),
    rw (zone_total-refreshed (zone_name zone) p z sim.inventory) h.1,
  );
}

module _ (source : Source) (event_time : ℤ) (p supplier_id : String) (zone : Zone) (n : ℤ)
    (n>0 : pos 0 <ℤ n) where
  apply_receive-Triple :
      Triple
        (λ sim. AreWithin sim × (pos 0 <ℤ zone_remaining_capacity zone sim.inventory))
        (apply_receive source event_time p zone n supplier_id)
        (λ event. AreWithin)
  unfolding apply_receive
  apply_receive-Triple = Triple-bind (get_position-AreWithin p (zone_name zone) zone n) (λ got.
      Triple-bind
        (Triple-look {Q = λ remaining sim. HasRoomFor zone remaining sim × (pos 0 <ℤ remaining)} _
          (λ sim h. ((h.0, at_most_self (zone_remaining_capacity zone sim.inventory)), h.1)))
        (λ remaining.
          Triple-given {H = pos 0 <ℤ remaining} (λ sim h. h.1)
            (λ room.
              Triple-if
                (λ e.
                  Triple-bind
                    (Triple-change _ (λ sim h.
                      add_available-AreWithin p zone (min_ℤ n remaining) sim (
                        h.0.0,
                        below_both n remaining (zone_remaining_capacity zone sim.inventory) h.0.1,
                      )))
                    (λ done.
                      Triple-bind
                        (Triple-change _ (λ sim h.
                          same_total-AreWithin p (zone_name zone)
                            (λ position. record position { supplier_id = some supplier_id }) sim
                            (λ position. refl) h))
                        (λ done.
                          Triple-bind (Triple-new_uuid source (λ sim drawn issued h. h))
                            (λ event_id. Triple-pure _ (λ sim h. h)))))
                (λ e. elim (not_both (min_positive n remaining n>0 room).1 e) [ ]))))

  -- A receipt of a positive quantity into a zone with room, if no zone holds more than its capacity,
  -- is generated, and then no zone does.
  pub apply_receive-AreWithin :
      (sim : Simulation)
      → AreWithin sim
      → pos 0 <ℤ zone_remaining_capacity zone sim.inventory
      → (found : Fields × Simulation) × (apply_receive source event_time p zone n supplier_id sim
          ≡ some found)
        × AreWithin (found.1)
  apply_receive-AreWithin sim h room =
      Post-get (λ event. AreWithin) (apply_receive source event_time p zone n supplier_id sim)
        (apply_receive-Triple.run sim (h, room))
