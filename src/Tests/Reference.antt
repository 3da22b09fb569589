-- ===== src/Tests/Reference.antt =====
-- A database in memory: the outbox keeps its order, and a new key is
-- longer than every key that is there.
use Prim.Native.String.{count}
use text.Mathlib.TextLemmas.{length-append}
use wizdaa_takehome.Prelude.{
  ◌<◌, String, none, List, [], ◌∷◌, ◌≡◌, refl, ap, inl, inr, same, join, eq_of_same, first,
  Bool-cases, arith,
}
use wizdaa_takehome.Entities.{TimeOffRequest, Outbox}
use wizdaa_takehome.Database.{Engine, Database, memory}

module _ {Row : Type 0} (key : Row → String) where
  -- All keys, one after another.
  abbrev pub glued : List Row → String
  glued [] = ""
  glued (x ∷ xs) = join (key x) (glued xs)

  abbrev pub fresh_key : List Row → String
  fresh_key rows = join "k" (glued rows)

  longer :
      (k : String) (rows : List Row)
      → count (glued rows) < count k
      → first (λ x. same k (key x)) rows ≡ none
  longer k [] h = refl
  longer k (x ∷ rows) h = elim (Bool-cases (same k (key x))) [
    | inl here ↦
        absurd (
          omega
            (arith, h, ap count (eq_of_same k (key x) here), length-append (key x) (glued rows)))
    | inr other ↦ rw other (longer k rows (omega (arith, h, length-append (key x) (glued rows))))
  ]

  pub fresh_key-first : (rows : List Row) → first (λ x. same (fresh_key rows) (key x)) rows ≡ none
  fresh_key-first rows =
      longer (fresh_key rows) rows (omega (arith, length-append "k" (glued rows)))

abbrev pub reference_engine : Engine
reference_engine =
    memory (λ rows. rows) (fresh_key (λ (r : TimeOffRequest). r.id))
      (fresh_key (λ (o : Outbox). o.id)) (λ t. "uuid")

abbrev pub reference : Database
reference = record {
  engine = reference_engine;
  find_one_lem = λ Row p rows. refl;
  find_lem = λ Row p rows. refl;
  update_lem = λ Row p f rows. refl;
  save_balance_lem = λ b rows. refl;
  save_request_lem = λ r rows. refl;
  save_outbox_lem = λ o rows. refl;
  save_event_lem = λ v rows. refl;
  save_batch_log_lem = λ l rows. refl;
  last_batch_lem = λ rows. refl;
  is_after_lem = λ acked as_of. refl;
  transaction_lem = λ A body locks t. refl;
  new_request_id_lem = fresh_key-first (λ (r : TimeOffRequest). r.id);
  new_outbox_id_lem = fresh_key-first (λ (o : Outbox). o.id);
}
