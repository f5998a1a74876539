-- ===== src/Ingest/Sort.antt =====
-- `sort((a, b) => a.seq - b.seq)` of apps/hub-server/src/services/ingest.ts, and the last event of a
-- sorted batch to write a column.
use conference_operator.Common.{
  ℕ, ◌≤◌, ◌<◌, ◌≡◌, ◌⊎◌, inl, inr, refl, sym, ap, ◌∙◌, Bool, true, false, Option, none, some, List,
  [], ◌∷◌, ◌++◌, arith, leb, Bool-cases, Option-cases, In, In-append, All, Pairwise, if◌then◌else◌,
}
use conference_operator.Ingest.Project.{Report}
use conference_operator.Ingest.{insert_by_seq, sort_by_seq}

abbrev pub Ascends : List Report → Type 0
Ascends = Pairwise (λ a b. a.seq ≤ b.seq)

insert_by_seq-All :
    (n : ℕ) (e : Report) (rs : List Report)
    → n ≤ e.seq
    → All (λ r. n ≤ r.seq) rs
    → All (λ r. n ≤ r.seq) (insert_by_seq e rs)
unfolding insert_by_seq
insert_by_seq-All n e [] h k = (h, tt)
insert_by_seq-All n e (r ∷ rs) h (k, l) = elim (Bool-cases (leb e.seq r.seq)) [
  | inl before ↦ rw before (h, (k, l))
  | inr after ↦ rw after (k, insert_by_seq-All n e rs h l)
]

All-le : (m n : ℕ) (rs : List Report) → m ≤ n → All (λ r. n ≤ r.seq) rs → All (λ r. m ≤ r.seq) rs
All-le m n [] h k = tt
All-le m n (r ∷ rs) h (k, l) = (omega (arith, h, k), All-le m n rs h l)

insert_by_seq-Ascends : (e : Report) (rs : List Report) → Ascends rs → Ascends (insert_by_seq e rs)
unfolding insert_by_seq
insert_by_seq-Ascends e [] s = (tt, tt)
insert_by_seq-Ascends e (r ∷ rs) (k, s) = elim (Bool-cases (leb e.seq r.seq)) [
  | inl before ↦
      let h : e.seq ≤ r.seq = ground arith in rw before ((h, All-le e.seq r.seq rs h k), (k, s))
  | inr after ↦
      rw after (insert_by_seq-All r.seq e rs (ground arith) k, insert_by_seq-Ascends e rs s)
]

-- What the sort gives ascends.
pub sort_by_seq-Ascends : (es : List Report) → Ascends (sort_by_seq es)
unfolding sort_by_seq
sort_by_seq-Ascends [] = tt
sort_by_seq-Ascends (e ∷ es) = insert_by_seq-Ascends e (sort_by_seq es) (sort_by_seq-Ascends es)

module _ (writes : Report → Bool) where
  abbrev or_first : Report → Option Report → Option Report
  or_first e none = if writes e then some e else none
  or_first e (some later) = some later

  abbrev pub last_writer : List Report → Option Report
  last_writer [] = none
  last_writer (e ∷ es) = or_first e (last_writer es)

  last_writer-All :
      (n : ℕ) (rs : List Report) (g : Report)
      → All (λ r. n ≤ r.seq) rs
      → last_writer rs ≡ some g
      → n ≤ g.seq
  last_writer-All n [] g k h = cc
  last_writer-All n (r ∷ rs) g (k, l) h = elim (Option-cases (last_writer rs)) [
    | inl silent ↦ elim (Bool-cases (writes r)) [
      | inl own ↦
          let e : some r ≡ some g = rw (silent, own) at h in let f : r ≡ g = cc in rw (← f) k
      | inr idle ↦ let e : ◌≡◌ {A = Option Report} none (some g) = rw (silent, idle) at h in cc
    ]
    | inr (f, later) ↦ last_writer-All n rs g l (later ∙ (rw later at h))
  ]

  pub last_writer-writes :
      (rs : List Report) (g : Report) → last_writer rs ≡ some g → writes g ≡ true
  last_writer-writes [] g h = cc
  last_writer-writes (r ∷ rs) g h = elim (Option-cases (last_writer rs)) [
    | inl silent ↦ elim (Bool-cases (writes r)) [
      | inl own ↦
          let e : some r ≡ some g = rw (silent, own) at h in let f : r ≡ g = cc in rw (← f) own
      | inr idle ↦ let e : ◌≡◌ {A = Option Report} none (some g) = rw (silent, idle) at h in cc
    ]
    | inr (f, later) ↦ last_writer-writes rs g (later ∙ (rw later at h))
  ]

  -- The later of a new event and of the last one, the new one first where they are equal.
  abbrev newest : Report → Option Report → Option Report
  newest e none = some e
  newest e (some g) = if leb e.seq g.seq then some g else some e

  abbrev newest_of : Report → Option Report → Option Report
  newest_of e o = if writes e then newest e o else o

  first-newest :
      (e : Report) (o : Option Report)
      → ((g : Report) → o ≡ some g → e.seq ≤ g.seq)
      → or_first e o ≡ newest_of e o
  first-newest e none h = refl
  first-newest e (some g) h = let k = h g refl in ground (arith, k)

  later-newest :
      (e r : Report) (o : Option Report)
      → r.seq < e.seq
      → or_first r (newest_of e o) ≡ newest_of e (or_first r o)
  later-newest e r none h = ground (arith, h)
  later-newest e r (some g) h = ground (arith, h)

  last_writer-insert :
      (e : Report) (rs : List Report)
      → Ascends rs
      → last_writer (insert_by_seq e rs) ≡ newest_of e (last_writer rs)
  unfolding insert_by_seq
  last_writer-insert e [] s = refl
  last_writer-insert e (r ∷ rs) (k, s) = elim (Bool-cases (leb e.seq r.seq)) [
    | inl before ↦
        let h : e.seq ≤ r.seq = ground arith in
        rw before (
          first-newest e (last_writer (r ∷ rs))
            (λ g m. last_writer-All e.seq (r ∷ rs) g (h, All-le e.seq r.seq rs h k) m))
    | inr after ↦ rw after (
        ap (or_first r) (last_writer-insert e rs s)
        ∙ later-newest e r (last_writer rs) (ground arith))
  ]

  -- The event that has the highest sequence of those that write, the last of the list where several have it.
  pub record IsLastWriter (es : List Report) (e : Report) : Type 0 where
    pub before : List Report
    pub after : List Report
    pub split : es ≡ before ++ (e ∷ after)
    pub writer : writes e ≡ true
    pub not_later : (f : Report) → In f before → writes f ≡ true → f.seq ≤ e.seq
    pub earlier : (f : Report) → In f after → writes f ≡ true → f.seq < e.seq

  still :
      (e g : Report) (es : List Report)
      → IsLastWriter es g
      → (writes e ≡ true → e.seq ≤ g.seq)
      → IsLastWriter (e ∷ es) g
  still e g es last h = record {
    before = e ∷ last.before;
    after = last.after;
    split = ap (λ l. e ∷ l) last.split;
    writer = last.writer;
    not_later = λ f m w. elim m [
      | inl here ↦ let k : writes e ≡ true = rw (sym here) w in rw here (h k)
      | inr there ↦ last.not_later f there w
    ];
    earlier = last.earlier;
  }

  first :
      (e : Report) (es : List Report)
      → writes e ≡ true
      → ((f : Report) → In f es → writes f ≡ true → f.seq < e.seq)
      → IsLastWriter (e ∷ es) e
  first e es own h = record {
    before = [];
    after = es;
    split = refl;
    writer = own;
    not_later = λ f m w. elim m [ ];
    earlier = h;
  }

  highest :
      (g : Report) (es : List Report)
      → IsLastWriter es g
      → (f : Report) → In f es
      → writes f ≡ true
      → f.seq ≤ g.seq
  highest g es last f m w =
      let m' : In f (last.before ++ (g ∷ last.after)) = rw (last.split) at m in
      elim ((In-append last.before (g ∷ last.after) f).0 m') [
        | inl early ↦ last.not_later f early w
        | inr (inl same) ↦ rw same (omega arith)
        | inr (inr late) ↦ let k = last.earlier f late w in omega (arith, k)
      ]

  no : (f : Report) → writes f ≡ false → writes f ≡ true → ⊥
  no f a b = ground arith

  pub last_writer-sort :
      (es : List Report)
      → ((last_writer (sort_by_seq es) ≡ none) × ((f : Report) → In f es → writes f ≡ false))
        ⊎ ((e : Report) × (last_writer (sort_by_seq es) ≡ some e) × IsLastWriter es e)
  unfolding sort_by_seq
  last_writer-sort [] = inl (refl, λ f m. elim m [ ])
  last_writer-sort (e ∷ es) =
      let told = last_writer-insert e (sort_by_seq es) (sort_by_seq-Ascends es) in
      elim (Bool-cases (writes e)) [
        | inr idle ↦ elim (last_writer-sort es) [
          | inl (silent, nobody) ↦ inl (
            told ∙ rw (idle, silent) refl,
            λ f m. elim m [ inl here ↦ rw here idle | inr there ↦ nobody f there ],
          )
          | inr (g, found, last) ↦
              inr (g, told ∙ rw (idle, found) refl, still e g es last (λ w. absurd (ground arith)))
        ]
        | inl own ↦ elim (last_writer-sort es) [
          | inl (silent, nobody) ↦ inr (
            e,
            told ∙ rw (own, silent) refl,
            first e es own (λ f m w. absurd (no f (nobody f m) w)),
          )
          | inr (g, found, last) ↦ elim (Bool-cases (leb e.seq g.seq)) [
            | inl older ↦
                inr (g, told ∙ rw (own, found, older) refl, still e g es last (λ w. ground arith))
            | inr newer ↦ inr (
              e,
              told ∙ rw (own, found, newer) refl,
              first e es own
                  (λ f m w. let top = highest g es last f m w in ground (arith, top, newer)),
            )
          ]
        ]
      ]

or_first_same :
    (v w : Report → Bool) (e : Report) (o : Option Report)
    → v e ≡ w e
    → or_first v e o ≡ or_first w e o
or_first_same v w e none h = rw h refl
or_first_same v w e (some g) h = refl

pub last_writer_same :
    (v w : Report → Bool) (es : List Report)
    → ((e : Report) → v e ≡ w e)
    → last_writer v es ≡ last_writer w es
last_writer_same v w [] h = refl
last_writer_same v w (e ∷ es) h =
    ap (or_first v e) (last_writer_same v w es h) ∙ or_first_same v w e (last_writer w es) (h e)
