-- ===== src/Derive/SoftLifetimes/Flags.antt =====
-- Each lifetime of a visited argument is among the soft ones exactly if the argument is soft.
use co.Prelude.{
  ℕ, ◌+◌, ◌≤◌, Bool, true, false, not, ◌||◌, ==_iff, List, [], ◌∷◌, ◌++◌, Bool-cases, inl, inr,
  cons_cong, append_cong, ◌≡◌, ◌∙◌, refl, sym, ap, arith,
}
use co.Derive.SoftLifetimes.{
  Lifetime, underscore, fresh, named, Ty, done, lifetime, reference, fn_ptr, Input, self_value,
  self_reference, self_typed, typed, FnArg, Collector, explicitize_lifetime, recording,
  or_underscore, visit_ty, visit_input, visit_inputs,
}
use co.Derive.SoftLifetimes.Validate.{
  lifetime_eq, has_lifetime, input_type, collect_lifetimes, any_soft, argument_errors,
}
use co.Derive.SoftLifetimes.Visit.{elided, is_own, is_written, is_bare, within, has-append}
use co.Derive.SoftLifetimes.Sources.{outer, marked, arg_lifetimes, all_lifetimes}
use co.Derive.SoftLifetimes.Members.{
  all_written, soft_bare, soft_at, soft_at_low, input-collect, input-all_fresh, input-next_idx,
}

lifetime_eq_refl : (l : Lifetime) → lifetime_eq l l ≡ true
unfolding lifetime_eq
lifetime_eq_refl underscore = refl
lifetime_eq_refl (fresh i) = (==_iff i i).1 refl
lifetime_eq_refl (named x) = (==_iff x x).1 refl

has_head : (l : Lifetime) (ls : List Lifetime) → has_lifetime (l ∷ ls) l ≡ true
unfolding has_lifetime
has_head l ls = ground (arith, lifetime_eq_refl l)

has_tail :
    (k : Lifetime) (ls : List Lifetime) (l : Lifetime) (member : has_lifetime ls l ≡ true)
    → has_lifetime (k ∷ ls) l ≡ true
unfolding has_lifetime
has_tail k ls l member = ground (arith, member)

pub any_soft_none :
    (soft ls : List Lifetime)
    (h : (l : Lifetime) → has_lifetime ls l ≡ true → has_lifetime soft l ≡ false)
    → any_soft soft ls ≡ false
unfolding any_soft
any_soft_none soft [] h = refl
any_soft_none soft (l ∷ ls) h =
    rw (h l (has_head l ls)) (any_soft_none soft ls (λ k m. h k (has_tail l ls k m)))

-- Each lifetime with whether it is a soft one.
unfoldable pub flagged : List Lifetime → List (Bool × Lifetime) → List (Bool × Bool)
unfolding has_lifetime
flagged soft [] = []
flagged soft ((by_self, l) ∷ es) = (by_self, has_lifetime soft l) ∷ flagged soft es

-- Each lifetime with one flag.
unfoldable pub tagged : Bool → List (Bool × Lifetime) → List (Bool × Bool)
tagged b [] = []
tagged b ((by_self, l) ∷ es) = (by_self, b) ∷ tagged b es

-- For each lifetime of the arguments, whether it is that of a receiver and that of a soft argument.
unfoldable pub sources : List FnArg → List (Bool × Bool)
unfolding tagged arg_lifetimes
sources [] = []
sources (arg ∷ args) = tagged arg.is_soft (arg_lifetimes arg.input) ++ sources args

flagged-append :
    (soft : List Lifetime) (xs ys : List (Bool × Lifetime))
    → flagged soft (xs ++ ys) ≡ flagged soft xs ++ flagged soft ys
unfolding flagged
flagged-append soft [] ys = refl
flagged-append soft ((b, l) ∷ xs) ys = cons_cong refl (flagged-append soft xs ys)

flagged-tagged :
    (soft : List Lifetime) (b m : Bool) (ls : List Lifetime)
    (h : (l : Lifetime) → has_lifetime ls l ≡ true → has_lifetime soft l ≡ b)
    → flagged soft (marked m ls) ≡ tagged b (marked m ls)
unfolding flagged tagged marked
flagged-tagged soft b m [] h = refl
flagged-tagged soft b m (l ∷ ls) h =
    cons_cong (ap (λ c. (m, c)) (h l (has_head l ls)))
      (flagged-tagged soft b m ls (λ k e. h k (has_tail l ls k e)))

tagged_two :
    (b m : Bool) (xs ys xs' ys' : List Lifetime)
    (left : tagged b (marked m xs) ≡ tagged b (marked m xs'))
    (right : tagged b (marked m ys) ≡ tagged b (marked m ys'))
    → tagged b (marked m (xs ++ ys)) ≡ tagged b (marked m (xs' ++ ys'))
unfolding tagged marked
tagged_two b m xs ys xs' ys' left right = split xs ys ∙ append_cong left right ∙ sym (split xs' ys')
  where
    split :
        (xs ys : List Lifetime)
        → tagged b (marked m (xs ++ ys)) ≡ tagged b (marked m xs) ++ tagged b (marked m ys)
    split [] ys = refl
    split (x ∷ xs) ys = cons_cong refl (split xs ys)

tagged-visit :
    (b m : Bool) (t : Ty) (s : Collector)
    → tagged b (marked m (outer (visit_ty t s).0)) ≡ tagged b (marked m (outer t))
unfolding visit_ty outer tagged marked
tagged-visit b m done s = refl
tagged-visit b m (lifetime l rest) s =
    let (l', s1) = explicitize_lifetime l s in
    cons_cong refl (tagged-visit b m rest (recording false l' s1))
tagged-visit b m (reference l elem rest) s =
    let (l', s1) = explicitize_lifetime (or_underscore l) s in
    let s2 = recording false l' s1 in
    let (elem', s3) = visit_ty elem s2 in
    cons_cong refl (
      tagged_two b m (outer elem') (outer (visit_ty rest s3).0) (outer elem) (outer rest)
        (tagged-visit b m elem s2) (tagged-visit b m rest s3))
tagged-visit b m (fn_ptr inner rest) s = tagged-visit b m rest s

outer-collect :
    (t : Ty) (s : Collector) (l : Lifetime)
    (member : has_lifetime (outer (visit_ty t s).0) l ≡ true)
    → has_lifetime (collect_lifetimes (visit_ty t s).0) l ≡ true
unfolding visit_ty outer collect_lifetimes has_lifetime
outer-collect done s l member = member
outer-collect (lifetime k rest) s l member =
    let (k', s1) = explicitize_lifetime k s in
    ground (arith, member, outer-collect rest (recording false k' s1) l)
outer-collect (reference k elem rest) s l member =
    let (k', s1) = explicitize_lifetime (or_underscore k) s in
    let s2 = recording false k' s1 in
    let (elem', s3) = visit_ty elem s2 in
    let rest' = (visit_ty rest s3).0 in
    ground (
      arith,
      member,
      has-append (outer elem') (outer rest') l,
      has-append (collect_lifetimes elem') (collect_lifetimes rest') l,
      outer-collect elem s2 l,
      outer-collect rest s3 l,
    )
outer-collect (fn_ptr inner rest) s l member = ground (
  arith,
  member,
  has-append (collect_lifetimes inner) (collect_lifetimes (visit_ty rest s).0) l,
  outer-collect rest s l,
)

flagged-input :
    (soft : List Lifetime) (b : Bool) (input : Input) (s : Collector)
    (h : (l : Lifetime)
      → has_lifetime (collect_lifetimes (input_type (visit_input input s).0)) l ≡ true
      → has_lifetime soft l ≡ b)
    → flagged soft (arg_lifetimes (visit_input input s).0) ≡ tagged b (arg_lifetimes input)
unfolding visit_input arg_lifetimes input_type flagged tagged collect_lifetimes
flagged-input soft b self_value s h = refl
flagged-input soft b (self_reference l) s h =
    let l' = (explicitize_lifetime (or_underscore l) s).0 in
    cons_cong (ap (λ c. (true, c)) (h l' (has_head l' []))) refl
flagged-input soft b (self_typed t) s h =
    flagged-tagged soft b false (outer (visit_ty t s).0) (λ l m. h l (outer-collect t s l m))
    ∙ tagged-visit b false t s
flagged-input soft b (typed t) s h =
    flagged-tagged soft b false (outer (visit_ty t s).0) (λ l m. h l (outer-collect t s l m))
    ∙ tagged-visit b false t s

-- The names of an argument, where `soft` has exactly those that the arguments from here on give to it.
arg_flag :
    (soft : List Lifetime) (arg : FnArg) (args : List FnArg) (s : Collector)
    (numbers : (i : ℕ)
      → s.next_idx ≤ i
      → has_lifetime soft (fresh i) ≡ soft_at (arg ∷ args) s.next_idx i)
    (no_own : (l : Lifetime) → is_own l ≡ true → has_lifetime soft l ≡ false)
    (written : is_written (input_type arg.input) ≡ true)
    (bare : (not arg.is_soft || is_bare (input_type arg.input)) ≡ true) (l : Lifetime)
    (member : has_lifetime (collect_lifetimes (input_type (visit_input arg.input s).0)) l ≡ true)
    → has_lifetime soft l ≡ arg.is_soft
unfolding soft_at is_own
arg_flag soft arg args s numbers no_own written bare (fresh i) member =
    let n' = s.next_idx + elided (input_type arg.input) in
    let inside : within s.next_idx n' i ≡ true =
      sym (input-collect arg.input s i written) ∙ member in
    let number = numbers i (ground (arith, inside)) in
    let later = soft_at_low args n' i (ground (arith, inside)) in
    number ∙ rw (inside, later) (ground arith)
arg_flag soft arg args s numbers no_own written bare underscore member =
    let fresh_only = input-all_fresh arg.input s underscore refl in
    ground (arith, no_own underscore refl, fresh_only, member, bare)
arg_flag soft arg args s numbers no_own written bare (named x) member =
    let fresh_only = input-all_fresh arg.input s (named x) refl in
    ground (arith, no_own (named x) refl, fresh_only, member, bare)

pub later_numbers :
    (soft : List Lifetime) (arg : FnArg) (args : List FnArg) (s : Collector)
    (numbers : (i : ℕ)
      → s.next_idx ≤ i
      → has_lifetime soft (fresh i) ≡ soft_at (arg ∷ args) s.next_idx i)
    (i : ℕ) (later : (visit_input arg.input s).1.next_idx ≤ i)
    → has_lifetime soft (fresh i) ≡ soft_at args (visit_input arg.input s).1.next_idx i
unfolding soft_at
later_numbers soft arg args s numbers i later =
    let next = input-next_idx arg.input s in
    let behind : within s.next_idx (s.next_idx + elided (input_type arg.input)) i ≡ false =
      ground (arith, next, later) in
    numbers i (omega (arith, next, later))
    ∙ rw (behind, ap (λ n. soft_at args n i) next) (ground arith)

-- No other argument has a lifetime of a soft one, and each lifetime is flagged as its argument is.
pub inputs-flagged :
    (soft : List Lifetime) (args : List FnArg) (s : Collector)
    (numbers : (i : ℕ) → s.next_idx ≤ i → has_lifetime soft (fresh i) ≡ soft_at args s.next_idx i)
    (no_own : (l : Lifetime) → is_own l ≡ true → has_lifetime soft l ≡ false)
    (written : all_written args ≡ true) (bare : soft_bare args ≡ true)
    → (argument_errors soft (visit_inputs args s).0 ≡ [])
      × (flagged soft (all_lifetimes (visit_inputs args s).0) ≡ sources args)
unfolding visit_inputs argument_errors all_lifetimes sources all_written soft_bare flagged
inputs-flagged soft [] s numbers no_own written bare = (refl, refl)
inputs-flagged soft (arg ∷ args) s numbers no_own written bare =
    let (input', s1) = visit_input arg.input s in
    let h =
      arg_flag soft arg args s numbers no_own (ground (arith, written)) (ground (arith, bare)) in
    let (none_here, flags) =
      inputs-flagged soft args s1 (later_numbers soft arg args s numbers) no_own
        (ground (arith, written)) (ground (arith, bare)) in
    let all_flags =
      flagged-append soft (arg_lifetimes input') (all_lifetimes (visit_inputs args s1).0)
      ∙ append_cong (flagged-input soft arg.is_soft arg.input s h) flags in
    (
      elim (Bool-cases arg.is_soft) [
        | inl is ↦ rw (is) none_here
        | inr hard ↦
            rw
              (
                hard,
                any_soft_none soft (collect_lifetimes (input_type input')) (λ l m. h l m ∙ hard),
              )
              none_here
      ],
      all_flags,
    )
