-- ===== src/Client/Copy/Runs.antt =====
-- How runs, which may not come to an end, follow one another.
use component_cli.Prelude.{
  String, ◌≡◌, refl, Bool, true, false, if◌then◌else◌, some, Option-cases, inl, inr, arith,
}
use component_cli.Prelude.Result.{wrap, Result, ok, err, Result-cases}
use component_cli.Oci.{Formats}
use component_cli.Client.{Caches, Remotes, State, Action, explain}
use component_cli.Client.Copy.{Run, finish, and_then, wrapped}

module _ {f : Formats} {c : Caches f} {r : Remotes f} where
  -- A run comes to an end.
  pub record Ends {A : Type 0} (m : Run f c r A) : Type 0 where
    pub ends : (s : State f c r) → (answer : Result A × State f c r) × (m s ≡ some answer)

  pub finish-Ends : {A : Type 0} (m : Action f c r A) → Ends (finish m)
  finish-Ends m = record { ends = λ s. (m s, refl) }

  pub Ends-if :
      {A : Type 0} (b : Bool) (m n : Run f c r A)
      → (b ≡ true → Ends m)
      → Ends n
      → Ends (if b then m else n)
  Ends-if true m n h h' = h refl
  Ends-if false m n h h' = h'

  pub finished-ok :
      {A : Type 0} (m : Action f c r A) (s t : State f c r) (a : A)
      → finish m s ≡ some (ok a, t)
      → ((m s).0 ≡ ok a) × ((m s).1 ≡ t)
  finished-ok m s t a h = ground arith

  -- What an action answered that comes first, in any case as an error of it or as its value.
  pub explained-ok :
      {A : Type 0} (text : String) (m : Action f c r A) (s t : State f c r) (a : A)
      → finish (explain text m) s ≡ some (ok a, t)
      → ((m s).0 ≡ ok a) × ((m s).1 ≡ t)
  explained-ok text m s t a h = elim (Result-cases (m s).0) [
    | inl (b, e) ↦ ground arith
    | inr (failure, e) ↦ absurd (ground arith)
  ]

  pub and_then-Ends :
      {A B : Type 0} (m : Run f c r A) (k : A → Run f c r B)
      → Ends m
      → ((s t : State f c r) (a : A) → m s ≡ some (ok a, t) → Ends (k a))
      → Ends (and_then m k)
  and_then-Ends m k h h' = record {
    ends = λ s.
        let ((a, t), e) = h.ends s in
        elim (Result-cases a) [
          | inr (failure, e') ↦ ((err failure, t), rw (and_then, e, e') refl)
          | inl (x, e') ↦
              let (answer, done) = (h' s t x (rw (e, e') refl)).ends t in
              (answer, rw (and_then, e, e') done)
        ];
  }

  pub wrapped-Ends : {A : Type 0} (text : String) (m : Run f c r A) → Ends m → Ends (wrapped text m)
  wrapped-Ends text m h = record {
    ends = λ s.
        let ((a, t), e) = h.ends s in
        elim (Result-cases a) [
          | inr (failure, e') ↦ ((err (wrap text failure), t), rw (wrapped, e, e') refl)
          | inl (x, e') ↦ ((ok x, t), rw (wrapped, e, e') refl)
        ];
  }

  -- What a successful run did.
  pub and_then-ok :
      {A B : Type 0} (m : Run f c r A) (k : A → Run f c r B) (s u : State f c r) (b : B)
      → and_then m k s ≡ some (ok b, u)
      → (a : A) × (t : State f c r) × (m s ≡ some (ok a, t)) × (k a t ≡ some (ok b, u))
  and_then-ok m k s u b h = elim (Option-cases (m s)) [
    | inl e ↦ absurd (ground arith)
    | inr ((a, t), e) ↦ elim (Result-cases a) [
      | inr (failure, e') ↦ absurd (ground arith)
      | inl (x, e') ↦ (x, t, rw e' at e, rw (and_then, e, e') at h)
    ]
  ]

  pub wrapped-ok :
      {A : Type 0} (text : String) (m : Run f c r A) (s u : State f c r) (b : A)
      → wrapped text m s ≡ some (ok b, u)
      → m s ≡ some (ok b, u)
  wrapped-ok text m s u b h = elim (Option-cases (m s)) [
    | inl e ↦ absurd (ground arith)
    | inr ((a, t), e) ↦ elim (Result-cases a) [
      | inr (failure, e') ↦ absurd (ground arith)
      | inl (x, e') ↦ rw (e, e') (rw (wrapped, e, e') at h)
    ]
  ]
