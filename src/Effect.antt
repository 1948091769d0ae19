-- ===== src/Effect.antt =====
-- Code that calls the toolkit: it takes the world and gives a value and the world after it.
use lepusa.Base.{ℕ, Bool, true, false, [], ◌∷◌, ◌≡◌, refl, ◌∙◌, Option, none, some, if◌then◌else◌}
use lepusa.Session.{Widget, Call, create, World, emit, Toolkit}

abbrev pub M {ℓ} : Type ℓ → Type ℓ
M A = World → A × World

infixl 5 ◌>>=◌ ◌>>◌
abbrev pub ◌>>=◌ {ℓ κ} : {A : Type ℓ} {B : Type κ} → M A → (A → M B) → M B
◌>>=◌ m f w = f (m w).0 (m w).1

abbrev pub ◌>>◌ {ℓ} : {B : Type ℓ} → M (Unit {0}) → M B → M B
◌>>◌ m k w = k (m w).1

abbrev pub pure {ℓ} : {A : Type ℓ} → A → M A
pure a w = (a, w)

abbrev pub skip : M (Unit {0})
skip w = (tt, w)

abbrev pub tell : Call → M (Unit {0})
tell call w = (tt, emit (call ∷ []) w)

-- What to do without a value and with one.
unfoldable pub maybe {ℓ κ} : {A : Type ℓ} {B : Type κ} → Option A → M B → (A → M B) → M B
maybe none m f = m
maybe (some a) m f = f a

-- A loop that does not end.
abbrev pub hang : M (Unit {0})
hang w = (tt, record w { undefined = true })

-- The toolkit is asked for an object; 0 is NULL.
abbrev pub new : Toolkit → Widget → M ℕ
new toolkit widget w = (toolkit.created widget w, emit (create widget ∷ []) w)

-- Nothing but the record of calls and the mark of a loop without end differs.
pub record Same (before after : World) : Type 0 where
  pub context : after.context ≡ before.context
  pub services : after.services ≡ before.services
  pub signals : after.signals ≡ before.signals

abbrev pub Keeps {ℓ} : {A : Type ℓ} → M A → Type 0
Keeps m = (w : World) → Same w (m w).1

pub Same-refl : (w : World) → Same w w
Same-refl w = record { context = refl; services = refl; signals = refl }

pub Same-trans : (u v w : World) → Same u v → Same v w → Same u w
Same-trans u v w a b = record {
  context = b.context ∙ a.context;
  services = b.services ∙ a.services;
  signals = b.signals ∙ a.signals;
}

pub skip-Keeps : Keeps skip
skip-Keeps w = Same-refl w

pub hang-Keeps : Keeps hang
hang-Keeps w = record { context = refl; services = refl; signals = refl }

pub tell-Keeps : (call : Call) → Keeps (tell call)
tell-Keeps call w = record { context = refl; services = refl; signals = refl }

pub new-Keeps : (toolkit : Toolkit) (widget : Widget) → Keeps (new toolkit widget)
new-Keeps toolkit widget w = record { context = refl; services = refl; signals = refl }

pub >>=-Keeps {ℓ κ} :
    {A : Type ℓ} {B : Type κ} (m : M A) (f : A → M B)
    → Keeps m
    → ((a : A) → Keeps (f a))
    → Keeps (m >>= f)
>>=-Keeps m f h k w = Same-trans w (m w).1 (f (m w).0 (m w).1).1 (h w) (k (m w).0 (m w).1)

pub >>-Keeps {ℓ} : {B : Type ℓ} (m : M (Unit {0})) (k : M B) → Keeps m → Keeps k → Keeps (m >> k)
>>-Keeps m k h hk w = Same-trans w (m w).1 (k (m w).1).1 (h w) (hk (m w).1)

pub if-Keeps {ℓ} :
    {A : Type ℓ} (b : Bool) (m k : M A) → Keeps m → Keeps k → Keeps (if b then m else k)
if-Keeps true m k h hk = h
if-Keeps false m k h hk = hk

pub maybe-Keeps {ℓ κ} :
    {A : Type ℓ} {B : Type κ} (o : Option A) (m : M B) (f : A → M B)
    → Keeps m
    → ((a : A) → Keeps (f a))
    → Keeps (maybe o m f)
unfolding maybe
maybe-Keeps none m f h k = h
maybe-Keeps (some a) m f h k = k a

pub pure-Keeps {ℓ} : {A : Type ℓ} (a : A) → Keeps (pure a)
pure-Keeps a w = Same-refl w

pub ruleset keeping = (
  skip-Keeps, hang-Keeps, tell-Keeps, new-Keeps, >>=-Keeps, >>-Keeps, if-Keeps, maybe-Keeps,
  pure-Keeps,
)
