-- ===== src/Engine/Raises.antt =====
-- Which packets make Engine.feed of linux/host/ntpl/engine.py raise.
use nostale_packet_logger.Base.{
  ◌≡◌, refl, sym, ap, ◌∙◌, ◌⊎◌, ◌↔◌, Option, none, some, List, [], ◌∷◌, arith, Option-cases, inl,
  inr,
}
use nostale_packet_logger.Base.Int.{ℤ}
use nostale_packet_logger.Base.Keys.{Text, text_eq}
use nostale_packet_logger.Base.Dict.{get}
use nostale_packet_logger.Base.Each.{Each, Each-items}
use nostale_packet_logger.Python.{codes}
use nostale_packet_logger.Python.Errors.{Exception, type_error}
use nostale_packet_logger.Protocol.{Packet, opcode, ints}
use nostale_packet_logger.World.{WorldState}
use nostale_packet_logger.Handlers.{Handler}
use nostale_packet_logger.Handlers.Movement.{change_map, on_map}
use nostale_packet_logger.Engine.{
  Engine, default_handlers, total, handle, is_caught, uncaught, feed,
}

-- A handler that never raises, or the one of `c_map`.
abbrev RaisesOnlyMap : Text → Handler → Type 0
RaisesOnlyMap op h =
    ((w : WorldState) (p : Packet) → (h w p).raised ≡ none) ⊎ (op ≡ codes "c_map") × (h ≡ on_map)

silent : (op : Text) (f : WorldState → Packet → WorldState) → RaisesOnlyMap op (total f)
silent op f = inl (λ w p. refl)

default_handlers-RaisesOnlyMap : Each RaisesOnlyMap default_handlers
unfolding default_handlers
default_handlers-RaisesOnlyMap = Each-items RaisesOnlyMap _ (
  silent _ _,
  (
    inr (refl, refl),
    (
      silent _ _,
      (
        silent _ _,
        (
          silent _ _,
          (
            silent _ _,
            (
              silent _ _,
              (
                silent _ _,
                (
                  silent _ _,
                  (
                    silent _ _,
                    (
                      silent _ _,
                      (
                        silent _ _,
                        (
                          silent _ _,
                          (
                            silent _ _,
                            (
                              silent _ _,
                              (
                                silent _ _,
                                (
                                  silent _ _,
                                  (
                                    silent _ _,
                                    (silent _ _, (silent _ _, (silent _ _, (silent _ _, tt)))),
                                  ),
                                ),
                              ),
                            ),
                          ),
                        ),
                      ),
                    ),
                  ),
                ),
              ),
            ),
          ),
        ),
      ),
    ),
  ),
)

change_map-raised :
    (w : WorldState) (values : Option (List ℤ)) (x : Exception)
    → (uncaught (change_map w values).raised ≡ some x) ↔ ((x ≡ type_error) × (values ≡ none))
unfolding change_map is_caught
change_map-raised w none x = (λ h. (ground arith, refl), λ h. ground arith)
change_map-raised w (some []) x = (λ h. cc, λ h. cc (h.1))
change_map-raised w (some (m ∷ [])) x = (λ h. cc, λ h. cc (h.1))
change_map-raised w (some (_ ∷ m ∷ [])) x = (λ h. cc, λ h. cc (h.1))
change_map-raised w (some (_ ∷ m ∷ state ∷ _)) x = (λ h. cc, λ h. cc (h.1))

handle-raised :
    (op : Text) (w : WorldState) (p : Packet) (x : Exception)
    → uncaught (handle (get default_handlers op) w p).raised ≡ some x
    → (x ≡ type_error) × (op ≡ codes "c_map") × (ints 3 p ≡ none)
unfolding handle on_map
handle-raised op w p x h = elim (Option-cases (get default_handlers op)) [
  | inl e ↦ cc (ap (λ o. uncaught (handle o w p).raised) e)
  | inr (f, e) ↦ elim (default_handlers-RaisesOnlyMap.at op f e) [
    | inl never ↦ cc (ap (λ o. uncaught (handle o w p).raised) e, ap uncaught (never w p))
    | inr (same, map) ↦
        let here : uncaught (handle (get default_handlers op) w p).raised
            ≡ uncaught (on_map w p).raised =
          ap (λ o. uncaught (handle o w p).raised) (e ∙ ap some map) in
        let (kind, short) = (change_map-raised w (ints 3 p) x).0 (sym here ∙ h) in
        (kind, same, short)
  ]
]

map_handler : get default_handlers (codes "c_map") ≡ some on_map
unfolding get default_handlers
map_handler = refl

-- Fed to an engine with its own handlers, a packet makes `feed` raise exactly if it is a `c_map`
-- for which `ints 3` has no result, as with fewer than three arguments or with one that is no
-- number; the exception is a TypeError, which `feed` does not catch.
pub feed-raises :
    (e : Engine) (p : Packet) (x : Exception)
    → e.handlers ≡ default_handlers
    → ((feed e p).1 ≡ some x) ↔ ((x ≡ type_error) × (opcode p ≡ codes "c_map") × (ints 3 p ≡ none))
unfolding feed on_map
feed-raises e p x own =
    let w : WorldState = record e.world { last_packet = some p } in
    (
      λ h. handle-raised (opcode p) w p x (rw own at h),
      λ (kind, same, short).
          rw (own, same, map_handler) ((change_map-raised w (ints 3 p) x).1 (kind, short)),
    )
