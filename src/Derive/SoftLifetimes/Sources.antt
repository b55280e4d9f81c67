-- ===== src/Derive/SoftLifetimes/Sources.antt =====
-- Lifetime elision: which lifetime of the arguments stands for the elided ones of the result.
use co.Prelude.{
  Bool, true, false, Option, none, some, List, [], ◌∷◌, ◌++◌, cons_cong, ◌≡◌, ◌∙◌, refl, sym, ap,
}
use co.Derive.SoftLifetimes.{
  Lifetime, underscore, fresh, named, Ty, done, lifetime, reference, fn_ptr, Input, self_value,
  self_reference, self_typed, typed, FnArg, Recorded, Collector, new_collector, or_underscore,
  explicitize_lifetime, record_with, record_lifetime, recording, visit_ty, visit_input,
  visit_inputs, output_lifetime,
}

-- The lifetimes of a type, those of function pointers aside.
unfoldable pub outer : Ty → List Lifetime
outer done = []
outer (lifetime l rest) = l ∷ outer rest
outer (reference l elem rest) = or_underscore l ∷ (outer elem ++ outer rest)
outer (fn_ptr inner rest) = outer rest

-- Lifetimes with whether they are those of a receiver.
unfoldable pub marked : Bool → List Lifetime → List (Bool × Lifetime)
marked by_self [] = []
marked by_self (l ∷ ls) = (by_self, l) ∷ marked by_self ls

unfoldable pub arg_lifetimes : Input → List (Bool × Lifetime)
unfolding outer marked
arg_lifetimes self_value = []
arg_lifetimes (self_reference l) = (true, or_underscore l) ∷ []
arg_lifetimes (self_typed t) = marked false (outer t)
arg_lifetimes (typed t) = marked false (outer t)

unfoldable pub all_lifetimes : List FnArg → List (Bool × Lifetime)
unfolding arg_lifetimes
all_lifetimes [] = []
all_lifetimes (arg ∷ args) = arg_lifetimes arg.input ++ all_lifetimes args

-- The entry that stands for elided lifetimes: the last one of a receiver, or the only one.
unfoldable pub last_self {ℓ} : {A : Type ℓ} → List (Bool × A) → Option A → Option A
last_self [] found = found
last_self ((true, a) ∷ es) found = last_self es (some a)
last_self ((false, a) ∷ es) found = last_self es found

unfoldable pub sole {ℓ} : {A : Type ℓ} → List (Bool × A) → Option A
sole [] = none
sole ((b, a) ∷ []) = some a
sole ((b, a) ∷ e ∷ es) = none

unfoldable pub or_else {ℓ} : {A : Type ℓ} → Option A → Option A → Option A
or_else none o = o
or_else (some a) o = some a

unfoldable pub elision_source {ℓ} : {A : Type ℓ} → List (Bool × A) → Option A
unfolding last_self sole or_else
elision_source es = or_else (last_self es none) (sole es)

unfoldable pub record_all : List (Bool × Lifetime) → Recorded → Recorded
unfolding record_lifetime
record_all [] r = r
record_all ((by_self, l) ∷ es) r = record_all es (record_lifetime by_self l r)

record_all-append :
    (xs ys : List (Bool × Lifetime)) (r : Recorded)
    → record_all (xs ++ ys) r ≡ record_all ys (record_all xs r)
unfolding record_all
record_all-append [] ys r = refl
record_all-append ((b, l) ∷ xs) ys r = record_all-append xs ys (record_lifetime b l r)

marked-append :
    (b : Bool) (xs ys : List Lifetime) → marked b (xs ++ ys) ≡ marked b xs ++ marked b ys
unfolding marked
marked-append b [] ys = refl
marked-append b (x ∷ xs) ys = cons_cong refl (marked-append b xs ys)

explicitize-recorded :
    (l : Lifetime) (s : Collector) → (explicitize_lifetime l s).1.recorded ≡ s.recorded
unfolding explicitize_lifetime
explicitize-recorded underscore s = refl
explicitize-recorded (fresh i) s = refl
explicitize-recorded (named x) s = refl

visit-recorded :
    (t : Ty) (s : Collector)
    → (visit_ty t s).1.recorded ≡ record_all (marked false (outer (visit_ty t s).0)) s.recorded
unfolding visit_ty outer marked record_all recording
visit-recorded done s = refl
visit-recorded (lifetime l rest) s =
    let (l', s1) = explicitize_lifetime l s in
    visit-recorded rest (recording false l' s1)
    ∙ ap
        (λ r.
          record_all (marked false (outer (visit_ty rest (recording false l' s1)).0))
            (record_lifetime false l' r))
        (explicitize-recorded l s)
visit-recorded (reference l elem rest) s =
    let (l', s1) = explicitize_lifetime (or_underscore l) s in
    let (elem', s3) = visit_ty elem (recording false l' s1) in
    let rest' = (visit_ty rest s3).0 in
    let all = λ (r : Recorded). record_all (marked false (outer rest')) r in
    visit-recorded rest s3
    ∙ ap all (
        visit-recorded elem (recording false l' s1)
        ∙ ap (λ r. record_all (marked false (outer elem')) (record_lifetime false l' r))
            (explicitize-recorded (or_underscore l) s))
    ∙ sym (
        ap (λ es. record_all es (record_lifetime false l' s.recorded))
          (marked-append false (outer elem') (outer rest'))
        ∙ record_all-append (marked false (outer elem')) (marked false (outer rest'))
            (record_lifetime false l' s.recorded))
visit-recorded (fn_ptr inner rest) s = visit-recorded rest s

input-recorded :
    (input : Input) (s : Collector)
    → (visit_input input s).1.recorded
      ≡ record_all (arg_lifetimes (visit_input input s).0) s.recorded
unfolding visit_input arg_lifetimes recording record_all
input-recorded self_value s = refl
input-recorded (self_reference l) s =
    ap (record_lifetime true (explicitize_lifetime (or_underscore l) s).0)
      (explicitize-recorded (or_underscore l) s)
input-recorded (self_typed t) s = visit-recorded t s
input-recorded (typed t) s = visit-recorded t s

inputs-recorded :
    (args : List FnArg) (s : Collector)
    → (visit_inputs args s).1.recorded
      ≡ record_all (all_lifetimes (visit_inputs args s).0) s.recorded
unfolding visit_inputs all_lifetimes record_all
inputs-recorded [] s = refl
inputs-recorded (arg ∷ args) s =
    let (input', s1) = visit_input arg.input s in
    let args' = (visit_inputs args s1).0 in
    inputs-recorded args s1
    ∙ ap (record_all (all_lifetimes args')) (input-recorded arg.input s)
    ∙ sym (record_all-append (arg_lifetimes input') (all_lifetimes args') s.recorded)

record_self :
    (es : List (Bool × Lifetime)) (l : Lifetime) (m : Bool)
    → output_lifetime
        (record_all es (record { out_lifetime = some l; multiple_lifetimes = m; is_self = true }))
      ≡ last_self es (some l)
unfolding record_all record_lifetime record_with last_self output_lifetime
record_self [] l true = refl
record_self [] l false = refl
record_self ((true, k) ∷ es) l m = record_self es k true
record_self ((false, k) ∷ es) l m = record_self es l true

record_many :
    (es : List (Bool × Lifetime)) (o : Option Lifetime)
    → output_lifetime
        (record_all es (record { out_lifetime = o; multiple_lifetimes = true; is_self = false }))
      ≡ last_self es none
unfolding record_all record_lifetime record_with last_self output_lifetime
record_many [] o = refl
record_many ((true, k) ∷ es) none = record_self es k true
record_many ((true, k) ∷ es) (some l) = record_self es k true
record_many ((false, k) ∷ es) none = record_many es (some k)
record_many ((false, k) ∷ es) (some l) = record_many es none

or_else_none : (o : Option Lifetime) → or_else o none ≡ o
unfolding or_else
or_else_none none = refl
or_else_none (some l) = refl

last_self_some :
    (es : List (Bool × Lifetime)) (l : Lifetime) (o : Option Lifetime)
    → or_else (last_self es (some l)) o ≡ last_self es (some l)
unfolding or_else last_self
last_self_some [] l o = refl
last_self_some ((true, k) ∷ es) l o = last_self_some es k o
last_self_some ((false, k) ∷ es) l o = last_self_some es l o

-- What the collector takes for the result.
pub output_lifetime-elision_source :
    (es : List (Bool × Lifetime))
    → output_lifetime (record_all es new_collector.recorded) ≡ elision_source es
unfolding record_all record_lifetime record_with elision_source output_lifetime
output_lifetime-elision_source [] = refl
output_lifetime-elision_source ((true, l) ∷ es) =
    record_self es l false ∙ sym (last_self_some es l _)
output_lifetime-elision_source ((false, l) ∷ []) = refl
output_lifetime-elision_source ((false, l) ∷ (true, k) ∷ es) =
    record_self es k true ∙ sym (last_self_some es k none)
output_lifetime-elision_source ((false, l) ∷ (false, k) ∷ es) =
    record_many es none ∙ sym (or_else_none (last_self es none))

pub inputs-output_lifetime :
    (args : List FnArg)
    → output_lifetime (visit_inputs args new_collector).1.recorded
      ≡ elision_source (all_lifetimes (visit_inputs args new_collector).0)
inputs-output_lifetime args =
    ap output_lifetime (inputs-recorded args new_collector)
    ∙ output_lifetime-elision_source (all_lifetimes (visit_inputs args new_collector).0)
