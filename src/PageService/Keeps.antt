-- ===== src/PageService/Keeps.antt =====
-- lib/page/service.ts: calls that keep a property of the repository, whatever they answer.
use iam_pager.Base.{Text, Bool, true, false, Option, none, some, ◌≡◌, refl, if◌then◌else◌, ℕ}
use iam_pager.Base.Exec.{Outcome, returned, thrown}
use iam_pager.PageRepository.State.{Repository, Fault, Action}
use iam_pager.PageService.Call.{
  World, Stop, Call, ◌>>=◌, ◌>>◌, pure, stop, unless, ask, given, resume, draw_page_id,
  draw_asset_id, draw_name, lifted,
}
use iam_pager.PageService.Updating.{catching, caught, optionally}

abbrev pub Answers : {E A : Type 0} → (A → Type 0) → Outcome E A → Type 0
Answers Q (returned a) = Q a
Answers Q (thrown e) = Unit

abbrev pub Any : {A : Type 0} → A → Type 0
Any a = Unit

-- From a repository with `I`, the call leaves one with `I`, and `Q` holds of a value it answers.
pub record Keeps {A : Type 0} (I : Repository → Type 0) (m : Call A) (Q : A → Type 0) : Type 0 where
  pub holds : (w : World) → I w.repository → I ((m w).1).repository × Answers Q (m w).0

lifted-Keeps :
    {A : Type 0} (I : Repository → Type 0) (Q : A → Type 0) (w : World)
    (o : Outcome Fault A × Repository)
    → I o.1 × Answers Q o.0
    → I ((lifted w o).1).repository × Answers Q (lifted w o).0
lifted-Keeps I Q w (returned a, s) h = h
lifted-Keeps I Q w (thrown e, s) h = h

weaker :
    {A : Type 0} (P Q : A → Type 0) (o : Outcome Stop A)
    → Answers P o
    → ((a : A) → P a → Q a)
    → Answers Q o
weaker P Q (returned a) p k = k a p
weaker P Q (thrown e) p k = tt

trivially : {E A : Type 0} (o : Outcome E A) → Answers Any o
trivially (returned a) = tt
trivially (thrown e) = tt

module _ {I : Repository → Type 0} where
  module _ {A B : Type 0} {Q : A → Type 0} {R : B → Type 0} where
    resumed :
        (o : Outcome Stop A × World) (f : A → Call B)
        → I o.1.repository × Answers Q o.0
        → ((a : A) → Q a → Keeps I (f a) R)
        → I ((resume o f).1).repository × Answers R (resume o f).0
    resumed (returned a, w) f h k = (k a h.1).holds w h.0
    resumed (thrown e, w) f h k = (h.0, tt)

    pub bind-Keeps :
        {m : Call A} {f : A → Call B}
        → Keeps I m Q
        → ((a : A) → Q a → Keeps I (f a) R)
        → Keeps I (m >>= f) R
    unfolding ◌>>=◌
    bind-Keeps {m} {f} h k = record { holds = λ w i. resumed (m w) f (h.holds w i) k }

  module _ {A : Type 0} {Q : A → Type 0} where
    pub then-Keeps :
        {P : Unit {0} → Type 0} {m : Call (Unit {0})} {k : Call A}
        → Keeps I m P
        → (P tt → Keeps I k Q)
        → Keeps I (m >> k) Q
    unfolding ◌>>◌
    then-Keeps h j = bind-Keeps h (λ a p. j p)

    pub pure-Keeps : (a : A) → Q a → Keeps I (pure a) Q
    unfolding pure
    pure-Keeps a q = record { holds = λ w i. (i, q) }

    pub stop-Keeps : (e : Stop) → Keeps I (stop e) Q
    unfolding stop
    stop-Keeps e = record { holds = λ w i. (i, tt) }

    pub if-Keeps :
        (b : Bool) {m k : Call A}
        → (b ≡ true → Keeps I m Q)
        → (b ≡ false → Keeps I k Q)
        → Keeps I (if b then m else k) Q
    if-Keeps true h j = h refl
    if-Keeps false h j = j refl

    caught-Keeps :
        (o : Outcome Stop A × World) (f : Stop → Call A)
        → I o.1.repository × Answers Q o.0
        → ((e : Stop) → Keeps I (f e) Q)
        → I ((caught o f).1).repository × Answers Q (caught o f).0
    caught-Keeps (returned a, w) f h k = h
    caught-Keeps (thrown e, w) f h k = (k e).holds w h.0

    pub catching-Keeps :
        {m : Call A} {f : Stop → Call A}
        → Keeps I m Q
        → ((e : Stop) → Keeps I (f e) Q)
        → Keeps I (catching m f) Q
    unfolding catching
    catching-Keeps {m} {f} h k = record { holds = λ w i. caught-Keeps (m w) f (h.holds w i) k }

    pub ask-Keeps :
        (m : Action A)
        → ((s : Repository) → I s → I (m s).1 × Answers Q (m s).0)
        → Keeps I (ask m) Q
    unfolding ask
    ask-Keeps m h = record { holds = λ w i. lifted-Keeps I Q w (m w.repository) (h w.repository i) }

  pub unless-Keeps : (b : Bool) (e : Stop) → Keeps I (unless b e) (λ _. b ≡ true)
  unfolding unless
  unless-Keeps true e = pure-Keeps tt refl
  unless-Keeps false e = stop-Keeps e

  module _ {A : Type 0} where
    pub changes-Keeps : (m : Action A) → ((s : Repository) → I s → I (m s).1) → Keeps I (ask m) Any
    changes-Keeps m h = ask-Keeps m (λ s i. (h s i, trivially (m s).0))

    pub given-Keeps : (o : Option A) (e : Stop) → Keeps I (given o e) (λ a. o ≡ some a)
    unfolding given
    given-Keeps none e = stop-Keeps e
    given-Keeps (some a) e = pure-Keeps a refl

    pub optionally-Keeps :
        {B : Type 0} (o : Option A) {f : A → Call B}
        → ((a : A) → Keeps I (f a) Any)
        → Keeps I (optionally o f) Any
    unfolding optionally
    optionally-Keeps none h = pure-Keeps none tt
    optionally-Keeps (some a) h = bind-Keeps (h a) (λ b _. pure-Keeps (some b) tt)

    pub post-Keeps :
        {P Q : A → Type 0} {m : Call A} → Keeps I m P → ((a : A) → P a → Q a) → Keeps I m Q
    post-Keeps {P} {Q} {m} h k = record {
      holds = λ w i. ((h.holds w i).0, weaker P Q (m w).0 (h.holds w i).1 k);
    }

    pub anyway : {Q : A → Type 0} {m : Call A} → Keeps I m Q → Keeps I m Any
    anyway {m = m} h = record { holds = λ w i. ((h.holds w i).0, trivially (m w).0) }

  pub draw_page_id-Keeps : (ids : ℕ → Text) → Keeps I (draw_page_id ids) Any
  unfolding draw_page_id
  draw_page_id-Keeps ids = record { holds = λ w i. (i, tt) }

  pub draw_asset_id-Keeps : (ids : ℕ → Text) → Keeps I (draw_asset_id ids) Any
  unfolding draw_asset_id
  draw_asset_id-Keeps ids = record { holds = λ w i. (i, tt) }

  pub draw_name-Keeps : (names : ℕ → Text) → Keeps I (draw_name names) Any
  unfolding draw_name
  draw_name-Keeps names = record { holds = λ w i. (i, tt) }
