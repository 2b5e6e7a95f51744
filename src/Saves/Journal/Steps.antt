-- ===== src/Saves/Journal/Steps.antt =====
-- Steps on the files under every sequence of failing calls: what holds after a success, and after a stop.
use project_chronos_engine.Prelude.{
  ◌≡◌, refl, sym, subst, Bool, true, false, List, [], ◌∷◌, if◌then◌else◌,
}
use project_chronos_engine.Saves.Metadata.{Error, Outcome, ok, err, panicked, died}
use project_chronos_engine.Saves.Disk.{
  Files, World, Fate, works, fails, dies, Io, after, ◌>>=◌, require, call, run_call, look,
}

-- `Q` after a success, `E` where the steps end early.
abbrev pub Post :
    {A : Type 0} → (A → Files → Type 0) → (Files → Type 0) → World × Outcome A → Type 0
Post Q E (w, ok a) = Q a w.files
Post Q E (w, err e) = E w.files
Post Q E (w, panicked) = E w.files
Post Q E (w, died) = E w.files

abbrev pub Triple :
    {A : Type 0} → (Files → Type 0) → Io A → (A → Files → Type 0) → (Files → Type 0) → Type 0
Triple P m Q E = (w : World) → P w.files → Post Q E (m w)

Post-after :
    {A B : Type 0} (Q : A → Files → Type 0) (R : B → Files → Type 0) (E : Files → Type 0)
    (r : World × Outcome A) (f : A → Io B)
    → Post Q E r
    → ((a : A) → Triple (Q a) (f a) R E)
    → Post R E (after r f)
Post-after Q R E (w, ok a) f h k = k a w h
Post-after Q R E (w, err e) f h k = h
Post-after Q R E (w, panicked) f h k = h
Post-after Q R E (w, died) f h k = h

pub Triple-then :
    {A B : Type 0} (P : Files → Type 0) (Q : A → Files → Type 0) (R : B → Files → Type 0)
    (E : Files → Type 0) (m : Io A) (f : A → Io B)
    → Triple P m Q E
    → ((a : A) → Triple (Q a) (f a) R E)
    → Triple P (m >>= f) R E
Triple-then P Q R E m f h k w p = Post-after Q R E (m w) f (h w p) k

-- What an outcome says of the files.
abbrev pub Says :
    {A : Type 0} → (A → Files → Type 0) → (Files → Type 0) → Files → Outcome A → Type 0
Says Q E fs (ok a) = Q a fs
Says Q E fs (err e) = E fs
Says Q E fs panicked = E fs
Says Q E fs died = E fs

Post-Says :
    {A : Type 0} (Q : A → Files → Type 0) (E : Files → Type 0) (fs : Files) (fates : List Fate)
    (o : Outcome A)
    → Says Q E fs o
    → Post Q E (record { files = fs; fates = fates }, o)
Post-Says Q E fs fates (ok a) h = h
Post-Says Q E fs fates (err e) h = h
Post-Says Q E fs fates panicked h = h
Post-Says Q E fs fates died h = h

run_call-Post :
    {A : Type 0} (Q : A → Files → Type 0) (E : Files → Type 0) (failed : Outcome A)
    (act : Files → Files × Outcome A) (fs : Files) (fates : List Fate)
    → Says Q E (act fs).0 (act fs).1
    → Says Q E fs failed
    → E fs
    → Post Q E (run_call failed act fs fates)
run_call-Post Q E failed act fs [] h f e = Post-Says Q E (act fs).0 [] (act fs).1 h
run_call-Post Q E failed act fs (works ∷ fates) h f e = Post-Says Q E (act fs).0 fates (act fs).1 h
run_call-Post Q E failed act fs (fails ∷ fates) h f e = Post-Says Q E fs fates failed f
run_call-Post Q E failed act fs (dies ∷ fates) h f e = e

pub Triple-call :
    {A : Type 0} (P : Files → Type 0) (Q : A → Files → Type 0) (E : Files → Type 0)
    (failed : Outcome A) (act : Files → Files × Outcome A)
    → ((fs : Files) → P fs → Says Q E (act fs).0 (act fs).1)
    → ((fs : Files) → P fs → Says Q E fs failed)
    → ((fs : Files) → P fs → E fs)
    → Triple P (call failed act) Q E
unfolding call
Triple-call P Q E failed act h f e w p =
    run_call-Post Q E failed act w.files w.fates (h w.files p) (f w.files p) (e w.files p)

-- Steps that leave the files alone.
abbrev pub IsQuiet : {A : Type 0} → Io A → Type 0
IsQuiet m = (w : World) → (m w).0.files ≡ w.files

after-quiet :
    {A B : Type 0} (r : World × Outcome A) (f : A → Io B)
    → ((a : A) → IsQuiet (f a))
    → (after r f).0.files ≡ r.0.files
after-quiet (w, ok a) f k = k a w
after-quiet (w, err e) f k = refl
after-quiet (w, panicked) f k = refl
after-quiet (w, died) f k = refl

pub >>=-IsQuiet :
    {A B : Type 0} (m : Io A) (f : A → Io B)
    → IsQuiet m
    → ((a : A) → IsQuiet (f a))
    → IsQuiet (m >>= f)
>>=-IsQuiet m f h k w =
    subst (λ (fs : Files). (after (m w) f).0.files ≡ fs) (h w) (after-quiet (m w) f k)

run_call_quiet :
    {A : Type 0} (failed : Outcome A) (f : Files → Outcome A) (fs : Files) (fates : List Fate)
    → (run_call failed (λ x. (x, f x)) fs fates).0.files ≡ fs
run_call_quiet failed f fs [] = refl
run_call_quiet failed f fs (works ∷ fates) = refl
run_call_quiet failed f fs (fails ∷ fates) = refl
run_call_quiet failed f fs (dies ∷ fates) = refl

pub look-IsQuiet :
    {A : Type 0} (failed : Outcome A) (f : Files → Outcome A) → IsQuiet (look failed f)
unfolding look
look-IsQuiet failed f w = run_call_quiet failed f w.files w.fates

pub require-IsQuiet : (b : Bool) (e : Error) → IsQuiet (require b e)
require-IsQuiet true e w = refl
require-IsQuiet false e w = refl

-- A quiet step keeps whatever holds of the files.
Post-quiet :
    {A : Type 0} (P : Files → Type 0) (r : World × Outcome A)
    → P r.0.files
    → Post (λ a fs. P fs) P r
Post-quiet P (w, ok a) h = h
Post-quiet P (w, err e) h = h
Post-quiet P (w, panicked) h = h
Post-quiet P (w, died) h = h

pub Triple-quiet :
    {A : Type 0} (P : Files → Type 0) (m : Io A) → IsQuiet m → Triple P m (λ a fs. P fs) P
Triple-quiet P m h w p = Post-quiet P (m w) (subst P (sym (h w)) p)

pub Triple-require :
    (P : Files → Type 0) (b : Bool) (e : Error)
    → Triple P (require b e) (λ u fs. P fs × (b ≡ true)) P
Triple-require P true e w p = (p, refl)
Triple-require P false e w p = p

-- A look whose failure is an error tells what the files say.
pub Triple-look :
    {A : Type 0} (P : Files → Type 0) (e : Error) (f : Files → Outcome A)
    → Triple P (look (err e) f) (λ a fs. P fs × (f fs ≡ ok a)) P
unfolding look
Triple-look {A = A} P e f =
    Triple-call P (λ a fs. P fs × (f fs ≡ ok a)) P (err e) (λ fs. (fs, f fs))
      (λ fs p. says fs (f fs) refl p) (λ fs p. p) (λ fs p. p)
  where
    says :
        (fs : Files) (o : Outcome A)
        → f fs ≡ o
        → P fs
        → Says (λ a fs'. P fs' × (f fs' ≡ ok a)) P fs o
    says fs (ok a) q p = (p, q)
    says fs (err x) q p = p
    says fs panicked q p = p
    says fs died q p = p

pub Triple-weaken :
    {A : Type 0} (P : Files → Type 0) (Q Q' : A → Files → Type 0) (E E' : Files → Type 0) (m : Io A)
    → Triple P m Q E
    → ((a : A) (fs : Files) → Q a fs → Q' a fs)
    → ((fs : Files) → E fs → E' fs)
    → Triple P m Q' E'
Triple-weaken {A = A} P Q Q' E E' m h q e w p = go (m w) (h w p)
  where
    go : (r : World × Outcome A) → Post Q E r → Post Q' E' r
    go (w', ok a) x = q a w'.files x
    go (w', err b) x = e w'.files x
    go (w', panicked) x = e w'.files x
    go (w', died) x = e w'.files x

pub Triple-pre :
    {A : Type 0} (P P' : Files → Type 0) (Q : A → Files → Type 0) (E : Files → Type 0) (m : Io A)
    → ((fs : Files) → P fs → P' fs)
    → Triple P' m Q E
    → Triple P m Q E
Triple-pre P P' Q E m h t w p = t w (h w.files p)

pub Triple-if :
    {A : Type 0} (P : Files → Type 0) (Q : A → Files → Type 0) (E : Files → Type 0) (b : Bool)
    (m n : Io A)
    → (b ≡ true → Triple P m Q E)
    → (b ≡ false → Triple P n Q E)
    → Triple P (if b then m else n) Q E
Triple-if P Q E true m n h k = h refl
Triple-if P Q E false m n h k = k refl
