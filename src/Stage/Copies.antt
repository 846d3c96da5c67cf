-- ===== src/Stage/Copies.antt =====
-- Clones and moves of a PrintStage.
use dag_scheduler.Base.{
  ℕ, String, Bool, true, false, none, Outcome, ok, throws, ◌>>=◌, ◌≡◌, ◌≢◌, refl, ap,
}
use dag_scheduler.Externals.{Externals}
use dag_scheduler.Uuid.{
  as_string, is_initialized, null_uuid, uuid_eq_iff, read_uuid, read_uuid-as_string,
}
use dag_scheduler.Stage.{
  Members, PrintStage, move_print_stage, move_members, print_stage, copy_members, members_eq,
  clone_print_stage,
}
use dag_scheduler.Print.{stage_text}

module _ ⦃env : Externals⦄ where
  copy_members_lem :
      (label : String) (uuid : ℕ)
      → uuid ≢ null_uuid
      → copy_members label uuid ≡ ok (record { label = label; uuid = uuid })
  unfolding copy_members
  copy_members_lem label uuid proper =
      ap (λ (o : Outcome ℕ). o >>= λ u. ok (record { label = label; uuid = u }))
        (read_uuid-as_string uuid proper)

  -- A clone of a PrintStage whose UUID is not null has the label and the UUID, is equal to it by
  -- `operator==`, and is written as the same text.
  pub clone_print_stage_lem :
      (found : Bool) (self : PrintStage)
      → self.members.uuid ≢ null_uuid
      → (copy : PrintStage) × (clone_print_stage found self ≡ ok copy)
        × (members_eq self.members copy.members ≡ true)
        × (stage_text (print_stage copy) ≡ stage_text (print_stage self))
  unfolding clone_print_stage members_eq print_stage
  clone_print_stage_lem found self proper =
      let uuid = self.members.uuid in
      (
        record { members = self.members; running = found },
        ap (λ (o : Outcome Members). o >>= λ m. ok (record { members = m; running = found }))
            (copy_members_lem self.members.label uuid proper),
        (uuid_eq_iff uuid uuid).1 refl,
        refl,
      )

  -- A PrintStage that is not running moves with its label and its UUID. What is left of it cannot be
  -- cloned: if `uuid_parse` fails on the empty text, `clone` throws.
  pub clone_left :
      (found again : Bool) (other : PrintStage)
      → other.running ≡ false
      → env.parse "" ≡ none
      → (moved : PrintStage) × (left : PrintStage) × (move_print_stage found other
          ≡ ok (moved, left))
        × (moved.members ≡ other.members)
        × (clone_print_stage again left ≡ throws)
  unfolding move_print_stage move_members clone_print_stage copy_members read_uuid as_string
      is_initialized
  clone_left found again other idle empty = (
    record { members = other.members; running = found },
    record other { members = record { label = ""; uuid = null_uuid } },
    rw idle refl,
    refl,
    rw (empty, clone_print_stage, copy_members, read_uuid) refl,
  )
