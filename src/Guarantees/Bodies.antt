-- ===== src/Guarantees/Bodies.antt =====
-- The bodies that the routes take.
use wizdaa_takehome.Prelude.{
  ℕ, ◌≤◌, String, Bool, true, false, Option, none, some, List, [], ◌∷◌, ◌≡◌, refl, ap, ◌∙◌, zero,
  suc, subst, inl, inr, ◌⊎◌, leb, same, ◌&&◌, Bool-cases, Option-cases, arith,
}
use wizdaa_takehome.Prelude.Int.{ℤ, pos, negsuc}
use wizdaa_takehome.Entities.{HcmBalance, BatchCorpus}
use wizdaa_takehome.Database.{Tables, Engine, err, bad_request}
use wizdaa_takehome.Http.{
  Field, text, whole, odd, missing, positive_field, int_field, time_field, both_given, each_given,
  count, at_most, max_batch, is_not_empty, make_entry, make_corpus, RawEntry, RawCorpus, id_field,
  entry_of_body, entries_of_body, corpus_of_body, batch_route, post_batch,
}
use wizdaa_takehome.Ledger.Rows.{and_true}

both_parts :
    {A B C : Type 0} (f : A → B → C) (oa : Option A) (ob : Option B) (c : C)
    → both_given f oa ob ≡ some c
    → (a : A) × (b : B) × (oa ≡ some a) × (ob ≡ some b) × (f a b ≡ c)
both_parts f none ob c h = absurd (cc h)
both_parts f (some a) none c h = absurd (cc h)
both_parts f (some a) (some b) c h = (a, b, refl, refl, cc h)

positive_reads : (x : Field) (n : ℕ) → positive_field x ≡ some n → (x ≡ whole (pos n)) × (1 ≤ n)
positive_reads (text s) n h = absurd (cc h)
positive_reads (whole (pos zero)) n h = absurd (cc h)
positive_reads (whole (pos (suc m))) n h = (cc h, ground arith)
positive_reads (whole (negsuc m)) n h = absurd (cc h)
positive_reads odd n h = absurd (cc h)
positive_reads missing n h = absurd (cc h)

positive_back : (n : ℕ) → 1 ≤ n → positive_field (whole (pos n)) ≡ some n
positive_back zero h = absurd (omega (arith, h))
positive_back (suc n) h = refl

int_reads : (x : Field) (z : ℤ) → int_field x ≡ some z → x ≡ whole z
int_reads (text s) z h = absurd (cc h)
int_reads (whole n) z h = cc h
int_reads odd z h = absurd (cc h)
int_reads missing z h = absurd (cc h)

at_most-le :
    {A : Type 0} (n : ℕ) (o : Option (List A)) (xs : List A)
    → at_most n o ≡ some xs
    → (o ≡ some xs) × (count xs ≤ n)
at_most-le n none xs h = absurd (cc h)
at_most-le n (some ys) xs h = elim (Bool-cases (leb (count ys) n)) [
  | inr long ↦ absurd (cc (rw long at h))
  | inl fits ↦
      let e : some ys ≡ some xs = rw fits at h in
      let e' : ys ≡ xs = cc e in
      let fits' : count ys ≤ n = ground arith in (e, subst (λ zs. count zs ≤ n) e' fits')
]

module _ (is_short is_iso : String → Bool) (time_of : String → ℕ) where
  -- An id is a text that is not empty and not long.
  abbrev IsGiven : String → Type 0
  IsGiven s = (same s "" ≡ false) × (is_short s ≡ true)

  -- A field that is the text of a time.
  abbrev pub ReadsTime : Field → ℕ → Type 0
  ReadsTime x time = (s : String) × (x ≡ text s) × (is_iso s ≡ true) × (time_of s ≡ time)

  -- An entry of the body, and the balance that it says, field by field.
  pub record ReadsEntry (raw : RawEntry) (b : HcmBalance) : Type 0 where
    pub employee : raw.employee_id ≡ text b.employee_id
    pub location : raw.location_id ≡ text b.location_id
    pub days : raw.balance ≡ whole b.balance
    pub time : ReadsTime raw.as_of b.as_of
    pub names : IsGiven b.employee_id × IsGiven b.location_id

  -- Entry by entry, in the order of the body and none left out.
  abbrev pub ReadsEach : List RawEntry → List HcmBalance → Type 0
  ReadsEach [] [] = Unit
  ReadsEach [] (b ∷ bs) = ⊥
  ReadsEach (raw ∷ raws) [] = ⊥
  ReadsEach (raw ∷ raws) (b ∷ bs) = ReadsEntry raw b × ReadsEach raws bs

  -- The body of a batch, and the batch that it says.
  pub record Reads (raw : RawCorpus) (c : BatchCorpus) : Type 0 where
    pub sequence : raw.sequence ≡ whole (pos c.sequence)
    pub above_zero : 1 ≤ c.sequence
    pub time : ReadsTime raw.as_of c.as_of
    pub entries : List RawEntry
    pub given : raw.balances ≡ some entries
    pub each : ReadsEach entries c.balances
    pub few : count c.balances ≤ 10000

  id_reads :
      (x : Field) (s : String)
      → id_field is_short is_iso time_of x ≡ some s
      → (x ≡ text s) × IsGiven s
  id_reads (text raw) s h = elim (Bool-cases (is_not_empty raw && is_short raw)) [
    | inr bad ↦ absurd (cc (rw bad at h))
    | inl good ↦
        let e : some raw ≡ some s = rw good at h in
        let e' : raw ≡ s = cc e in
        let (full, short) = and_true (is_not_empty raw) (is_short raw) good in
        (ap text e', subst IsGiven e' (ground arith, short))
  ]
  id_reads (whole n) s h = absurd (cc h)
  id_reads odd s h = absurd (cc h)
  id_reads missing s h = absurd (cc h)

  time-ReadsTime :
      (x : Field) (n : ℕ) → time_field is_short is_iso time_of x ≡ some n → ReadsTime x n
  time-ReadsTime (text s) n h = elim (Bool-cases (is_iso s)) [
    | inr bad ↦ absurd (cc (rw bad at h))
    | inl good ↦ let e : some (time_of s) ≡ some n = rw good at h in (s, refl, good, cc e)
  ]
  time-ReadsTime (whole z) n h = absurd (cc h)
  time-ReadsTime odd n h = absurd (cc h)
  time-ReadsTime missing n h = absurd (cc h)

  entry-ReadsEntry :
      (raw : RawEntry) (b : HcmBalance)
      → entry_of_body is_short is_iso time_of raw ≡ some b
      → ReadsEntry raw b
  unfolding entry_of_body
  entry-ReadsEntry raw b h =
      let (ids, rest, e, e2, q) = both_parts make_entry _ _ b h in
      let (a, l, ea, el, qi) = both_parts (λ a b. (a, b)) _ _ ids e in
      let (z, n, ez, en, qr) = both_parts (λ a b. (a, b)) _ _ rest e2 in
      let (ea', ga) = id_reads raw.employee_id a ea in
      let (el', gl) = id_reads raw.location_id l el in
      subst (ReadsEntry raw)
        (ap (λ (p : String × String). make_entry p (z, n)) qi ∙ ap (make_entry ids) qr ∙ q)
        (record {
          employee = ea';
          location = el';
          days = int_reads raw.balance z ez;
          time = time-ReadsTime raw.as_of n en;
          names = (ga, gl);
        })

  each-ReadsEach :
      (raws : List RawEntry) (bs : List HcmBalance)
      → each_given (entry_of_body is_short is_iso time_of) raws ≡ some bs
      → ReadsEach raws bs
  each-ReadsEach [] bs h = let e : [] ≡ bs = cc h in subst (ReadsEach []) e tt
  each-ReadsEach (raw ∷ raws) bs h =
      let (y, ys, e, e', q) =
        both_parts (λ b bs. b ∷ bs) (entry_of_body is_short is_iso time_of raw)
          (each_given (entry_of_body is_short is_iso time_of) raws) bs h in
      subst (ReadsEach (raw ∷ raws)) q (entry-ReadsEntry raw y e, each-ReadsEach raws ys e')

  entries_read :
      (given : Option (List RawEntry)) (bs : List HcmBalance)
      → entries_of_body is_short is_iso time_of given ≡ some bs
      → (raws : List RawEntry) × (given ≡ some raws) × ReadsEach raws bs
  entries_read none bs h = absurd (cc h)
  entries_read (some raws) bs h = (raws, refl, each-ReadsEach raws bs h)

  corpus-Reads :
      (raw : RawCorpus) (c : BatchCorpus)
      → corpus_of_body is_short is_iso time_of raw ≡ some c
      → Reads raw c
  unfolding corpus_of_body
  corpus-Reads raw c h =
      let (head, bs, e, e2, q) = both_parts make_corpus _ _ c h in
      let (n, time, en, et, qh) = both_parts (λ a b. (a, b)) _ _ head e in
      let (eb, few) = at_most-le max_batch _ bs e2 in
      let (first_one, pos_n) = positive_reads raw.sequence n en in
      let (raws, given, each) = entries_read raw.balances bs eb in
      subst (Reads raw) (ap (λ (p : ℕ × ℕ). make_corpus p bs) qh ∙ q) (record {
        sequence = first_one;
        above_zero = pos_n;
        time = time-ReadsTime raw.as_of time et;
        entries = raws;
        given = given;
        each = each;
        few = few;
      })

  entry_back :
      (raw : RawEntry) (b : HcmBalance)
      → ReadsEntry raw b
      → entry_of_body is_short is_iso time_of raw ≡ some b
  unfolding entry_of_body
  entry_back raw b h =
      let (s, text_eq, iso, time_eq) = h.time in
      rw
        (
          h.employee, h.location, h.days, text_eq, h.names.0.0, h.names.0.1, h.names.1.0,
          h.names.1.1, iso, time_eq,
        )
        refl

  each_back :
      (raws : List RawEntry) (bs : List HcmBalance)
      → ReadsEach raws bs
      → each_given (entry_of_body is_short is_iso time_of) raws ≡ some bs
  each_back [] [] h = refl
  each_back [] (b ∷ bs) h = absurd h
  each_back (raw ∷ raws) [] h = absurd h
  each_back (raw ∷ raws) (b ∷ bs) h = rw (entry_back raw b h.0, each_back raws bs h.1) refl

  corpus_back :
      (raw : RawCorpus) (c : BatchCorpus)
      → Reads raw c
      → corpus_of_body is_short is_iso time_of raw ≡ some c
  unfolding corpus_of_body
  corpus_back raw c h =
      let (s, text_eq, iso, time_eq) = h.time in
      let few : leb (count c.balances) max_batch ≡ true = ground (arith, h.few) in
      rw
        (
          h.sequence,
          positive_back c.sequence h.above_zero,
          text_eq,
          iso,
          time_eq,
          h.given,
          each_back h.entries c.balances h.each,
          few,
        )
        refl

-- A batch is read from its body, and handed on to the ingest: its sequence is the body's, a whole
-- number above zero, its time is that of the body's text, and its entries are those of the body, in
-- their order, no more than ten thousand, each with the ids, the days and the time of its fields, where
-- the ids are not empty and not long. A body that no such batch can be read from is refused as a bad
-- request, and nothing is written.
pub batch_is_its_body :
    (is_short is_iso : String → Bool) (time_of : String → ℕ) (e : Engine) (raw : RawCorpus)
    (locks : List String) (t : Tables)
    → ((c : BatchCorpus) × Reads is_short is_iso time_of raw c
        × (batch_route is_short is_iso time_of e raw locks t ≡ post_batch e c locks t))
      ⊎ ((¬ ((c : BatchCorpus) × Reads is_short is_iso time_of raw c))
          × (batch_route is_short is_iso time_of e raw locks t ≡ (err bad_request, t)))
unfolding batch_route
batch_is_its_body is_short is_iso time_of e raw locks t =
    elim (Option-cases (corpus_of_body is_short is_iso time_of raw)) [
      | inl bad ↦
          inr
            (λ (c, h). absurd (cc (bad, corpus_back is_short is_iso time_of raw c h)), rw bad refl)
      | inr (c, good) ↦ inl (c, corpus-Reads is_short is_iso time_of raw c good, rw good refl)
    ]
