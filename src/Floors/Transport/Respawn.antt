-- ===== src/Floors/Transport/Respawn.antt =====
-- HW3's floors without a carrier: none is forgotten.
use mathlib.Core.Path.{subst}
use system_programming_homew.Prelude.{
  ℕ, ◌<◌, ◌≡◌, Bool, true, false, not, ◌&&◌, ◌||◌, ◌==◌, ltb, List, sym, ap, ◌∙◌, arith, Bool-cases,
  inl, inr,
}
use system_programming_homew.Floors.Word.{SharedWord}
use system_programming_homew.Floors.Requests.{DeliveryRequest, RepositionRequest}
use system_programming_homew.Floors.Transport.{
  pick_char, place_directly, load_delivery, load_reposition, unload, leaves, stage_after_leaving,
  leave_floor, enter_floor, mark_empty, delivery_leaves, reposition_leaves, delivery_enters,
  reposition_enters, delivery_ends, reposition_ends,
}
use system_programming_homew.Floors.Carriers.{
  Carrier, Stage, waits, delivered, departed, arrived, Building, add_carrier,
}
use system_programming_homew.Floors.Transport.Calls.{
  reserve_carrier_slot-exact, ask_delivery-exact, ask_reposition-exact,
}
use system_programming_homew.Floors.Transport.Steps.{
  Step, claim, reserve, admit, sort, pick, place, board, wander, leave, take_deliveries,
  take_repositions, deliver, leave_with_delivery, enter_with_delivery, end_delivery,
  leave_for_reposition, enter_for_reposition, end_reposition, start_carrier,
}

-- An elevator that has emptied the floor and has still to look at it again.
abbrev pub watches : ℕ → Stage → Bool
watches f (departed old now_empty) = now_empty && old == f
watches f (arrived old now_empty) = now_empty && old == f
watches f stage = false

pub record NoneForgotten (s : Building) : Type 0 where
  pub marked :
      (f : ℕ)
      → f < s.num_floors
      → s.carrier_count f ≡ 0
      → (s.respawn_pending f || watches f s.delivery.stage || watches f s.reposition.stage) ≡ true
  pub unmarked : (f : ℕ) → s.respawn_pending f ≡ true → s.carrier_count f ≡ 0

-- A step that leaves the floors and the stages alone.
record SameFloors (s t : Building) : Type 0 where
  size : t.num_floors ≡ s.num_floors
  count : t.carrier_count ≡ s.carrier_count
  pending : t.respawn_pending ≡ s.respawn_pending
  delivery_stage : t.delivery.stage ≡ s.delivery.stage
  reposition_stage : t.reposition.stage ≡ s.reposition.stage

module _ {s : Building} (v : NoneForgotten s) where
  SameFloors-NoneForgotten : {t : Building} → SameFloors s t → NoneForgotten t
  SameFloors-NoneForgotten {t} e = record {
    marked = λ f lt z.
        let m = v.marked f (omega (arith, e.size)) (sym (ap (λ g. g f) e.count) ∙ z) in
        rw (e.pending, e.delivery_stage, e.reposition_stage) m;
    unmarked = λ f p. ap (λ g. g f) e.count ∙ v.unmarked f (sym (ap (λ g. g f) e.pending) ∙ p);
  }

  delivery_leaves-NoneForgotten :
      (r : DeliveryRequest) (c : Carrier)
      → s.delivery.stage ≡ delivered
      → NoneForgotten (delivery_leaves s r c)
  unfolding delivery_leaves leave_floor stage_after_leaving
  delivery_leaves-NoneForgotten r c at = elim (Bool-cases (leaves r.to_floor c)) [
    | inl e ↦ record {
      marked = λ f lt z. ground (arith, v.marked f);
      unmarked = λ f p. ground (arith, v.unmarked f);
    }
    | inr e ↦ record {
      marked = λ f lt z. ground (arith, v.marked f);
      unmarked = λ f p. ground (arith, v.unmarked f);
    }
  ]

  delivery_enters-NoneForgotten :
      (r : DeliveryRequest) (c : Carrier) (old : ℕ) (empty : Bool)
      → s.delivery.stage ≡ departed old empty
      → NoneForgotten (delivery_enters s r c old empty)
  unfolding delivery_enters enter_floor
  delivery_enters-NoneForgotten r c old empty at = record {
    marked = λ f lt z. ground (arith, v.marked f);
    unmarked = λ f p. ground (arith, v.unmarked f);
  }

  delivery_ends-NoneForgotten :
      (r : DeliveryRequest) (rest : List DeliveryRequest) (c : Carrier) (old : ℕ) (empty : Bool)
      → s.delivery.stage ≡ arrived old empty
      → NoneForgotten (delivery_ends s r rest c old empty)
  unfolding delivery_ends mark_empty
  delivery_ends-NoneForgotten r rest c old empty at =
      elim (Bool-cases (
        empty
        && ltb old s.num_floors
        && (s.carrier_count old == 0)
        && not (s.respawn_pending old))) [
          | inl e ↦ record {
            marked = λ f lt z. ground (arith, v.marked f);
            unmarked = λ f p. ground (arith, v.unmarked f);
          }
          | inr e ↦ record {
            marked = λ f lt z. ground (arith, v.marked f);
            unmarked = λ f p. ground (arith, v.unmarked f);
          }
        ]

  reposition_leaves-NoneForgotten :
      (r : RepositionRequest) (c : Carrier)
      → s.reposition.stage ≡ waits
      → NoneForgotten (reposition_leaves s r c)
  unfolding reposition_leaves leave_floor stage_after_leaving
  reposition_leaves-NoneForgotten r c at = elim (Bool-cases (leaves r.to_floor c)) [
    | inl e ↦ record {
      marked = λ f lt z. ground (arith, v.marked f);
      unmarked = λ f p. ground (arith, v.unmarked f);
    }
    | inr e ↦ record {
      marked = λ f lt z. ground (arith, v.marked f);
      unmarked = λ f p. ground (arith, v.unmarked f);
    }
  ]

  reposition_enters-NoneForgotten :
      (r : RepositionRequest) (c : Carrier) (old : ℕ) (empty : Bool)
      → s.reposition.stage ≡ departed old empty
      → NoneForgotten (reposition_enters s r c old empty)
  unfolding reposition_enters enter_floor
  reposition_enters-NoneForgotten r c old empty at = record {
    marked = λ f lt z. ground (arith, v.marked f);
    unmarked = λ f p. ground (arith, v.unmarked f);
  }

  reposition_ends-NoneForgotten :
      (r : RepositionRequest) (rest : List RepositionRequest) (c : Carrier) (old : ℕ) (empty : Bool)
      → s.reposition.stage ≡ arrived old empty
      → NoneForgotten (reposition_ends s r rest c old empty)
  unfolding reposition_ends mark_empty
  reposition_ends-NoneForgotten r rest c old empty at =
      elim (Bool-cases (
        empty
        && ltb old s.num_floors
        && (s.carrier_count old == 0)
        && not (s.respawn_pending old))) [
          | inl e ↦ record {
            marked = λ f lt z. ground (arith, v.marked f);
            unmarked = λ f p. ground (arith, v.unmarked f);
          }
          | inr e ↦ record {
            marked = λ f lt z. ground (arith, v.marked f);
            unmarked = λ f p. ground (arith, v.unmarked f);
          }
        ]

  add_carrier-NoneForgotten : (f : ℕ) → NoneForgotten (add_carrier s f)
  unfolding add_carrier
  add_carrier-NoneForgotten f = record {
    marked = λ g lt z. ground (arith, v.marked g);
    unmarked = λ g p. ground (arith, v.unmarked g);
  }

pick_char-SameFloors :
    (s : Building) (k : ℕ) (c : Carrier) (wi : ℕ) (w : SharedWord) (draw : ℕ → ℕ)
    → SameFloors s (pick_char s k c wi w draw)
unfolding pick_char
pick_char-SameFloors s k c wi w draw = ground arith

pub Step-NoneForgotten : {s t : Building} → NoneForgotten s → Step s t → NoneForgotten t
unfolding place_directly load_delivery load_reposition unload
Step-NoneForgotten v (claim slot c here at e) = SameFloors-NoneForgotten v (ground arith)
Step-NoneForgotten v (reserve slot c idx w here at g e) = SameFloors-NoneForgotten v (ground arith)
Step-NoneForgotten v (admit slot c idx sf w ok here at g e) =
    SameFloors-NoneForgotten v (ground arith)
Step-NoneForgotten v (sort wi w g adm undone e) = SameFloors-NoneForgotten v (ground arith)
Step-NoneForgotten {s} v (pick k c wi w draw here at g e) =
    subst NoneForgotten (sym e) (SameFloors-NoneForgotten v (pick_char-SameFloors s k c wi w draw))
Step-NoneForgotten v (place k c wi w ci here at g home e) =
    SameFloors-NoneForgotten v (ground arith)
Step-NoneForgotten {s} v (board k c wi w ci here at g away e) =
    let (rs, q, p) = ask_delivery-exact s k c wi w ci e in SameFloors-NoneForgotten v (ground arith)
Step-NoneForgotten {s} v (wander k c draw here at e) =
    let (rs, q, p) = ask_reposition-exact s k c draw e in SameFloors-NoneForgotten v (ground arith)
Step-NoneForgotten v (leave k c here at e) = SameFloors-NoneForgotten v (ground arith)
Step-NoneForgotten v (take_deliveries capacity h none_left at e) =
    SameFloors-NoneForgotten v (ground arith)
Step-NoneForgotten v (take_repositions capacity h none_left at e) =
    SameFloors-NoneForgotten v (ground arith)
Step-NoneForgotten v (deliver r rest w c h at g here e) = subst NoneForgotten (sym e) (record {
  marked = λ f lt z. ground (arith, v.marked f);
  unmarked = λ f p. ground (arith, v.unmarked f);
})
Step-NoneForgotten v (leave_with_delivery r rest c h at here e) =
    subst NoneForgotten (sym e) (delivery_leaves-NoneForgotten v r c at)
Step-NoneForgotten v (enter_with_delivery r rest c old empty h at here e) =
    subst NoneForgotten (sym e) (delivery_enters-NoneForgotten v r c old empty at)
Step-NoneForgotten v (end_delivery r rest c old empty h at here e) =
    subst NoneForgotten (sym e) (delivery_ends-NoneForgotten v r rest c old empty at)
Step-NoneForgotten v (leave_for_reposition r rest c h at here e) =
    subst NoneForgotten (sym e) (reposition_leaves-NoneForgotten v r c at)
Step-NoneForgotten v (enter_for_reposition r rest c old empty h at here e) =
    subst NoneForgotten (sym e) (reposition_enters-NoneForgotten v r c old empty at)
Step-NoneForgotten v (end_reposition r rest c old empty h at here e) =
    subst NoneForgotten (sym e) (reposition_ends-NoneForgotten v r rest c old empty at)
Step-NoneForgotten {s} v (start_carrier f slot lt e) =
    let (room, p, q) = reserve_carrier_slot-exact s f e in
    subst NoneForgotten (sym p) (add_carrier-NoneForgotten v f)
