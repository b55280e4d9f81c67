-- ===== src/Tests/Containers.antt =====
-- Vectors, boxes and strings at concrete inputs.
use co.Prelude.{
  ℕ, ◌+◌, ◌<◌, Bool, true, false, Option, none, some, is_some, List, [], ◌∷◌, if◌then◌else◌, ◌≡◌,
  refl, arith,
}
use co.Primitive.{CBool, c_true, bool_conv}
use co.Primitive.Laws.{bool-IsConv}
use co.Alloc.{Heap, RustVec, IsOwned, IsHeap}
use co.Alloc.Laws.{Popped}
use co.Vector.{Header, header_from, into_vec, vec_push, vec_pop}
use co.Vector.Laws.{vec_push_lem, vec_pop_lem, into_vec-header_from}
use co.VecConv.{all, vec_encode, vec_decode, vec_decode_stable, string_encode, string_decode}
use co.VecConv.Laws.{vec_decode-vec_encode, vec_decode_frees, string_decode-string_encode}
use co.Boxed.{Box, as_vec, from_box, box_encode, box_decode, box_decode_stable}
use co.Boxed.Laws.{box_decode-box_encode, box_decode_stable_leaks}

-- A heap with nothing behind raw pointers.
abbrev empty {ℓ} : {A : Type ℓ} → Heap A
empty = record { next = 10; raw = λ a. none }

empty-IsHeap {ℓ} : {A : Type ℓ} → IsHeap {A = A} empty
empty-IsHeap = (omega arith, λ a above. refl)

-- Two numbers, in a vector that is full.
abbrev two : RustVec ℕ
two = record { address = 4; items = 7 ∷ 8 ∷ []; capacity = 2 }

two-IsOwned : IsOwned two empty
two-IsOwned = ((λ e. omega (arith, e)), omega arith, λ p. refl)

-- A capacity that grows by four.
abbrev by_four : ℕ → Option ℕ
by_four capacity = some (capacity + 4)

by_four_grows : (c d : ℕ) → by_four c ≡ some d → c < d
by_four_grows c d e = ground arith

vec_push_lem_example :
    let (v, given) = header_from two empty in
    (returned : Bool) × (w' : RustVec ℕ) × (h' : Heap ℕ) × (let (v', given') = header_from w' h' in
      vec_push by_four v 9 given ≡ some (returned, v', given'))
    × IsOwned w' h'
    × IsHeap h'
    × (h'.raw ≡ (λ a. none))
    × (w'.items ≡ (if returned then 7 ∷ 8 ∷ 9 ∷ [] else 7 ∷ 8 ∷ []))
vec_push_lem_example = vec_push_lem by_four by_four_grows two 9 empty two-IsOwned empty-IsHeap

vec_pop_lem_example :
    let (v, given) = header_from two empty in
    (x : Option ℕ) × (w' : RustVec ℕ) × (let (v', given') = header_from w' empty in
      vec_pop v given ≡ some (x, v', given'))
    × IsOwned w' empty
    × Popped x (7 ∷ 8 ∷ []) w'.items
vec_pop_lem_example = vec_pop_lem two empty two-IsOwned

header_taken_back :
    let (c, given) = header_from two empty in into_vec c given ≡ some (some two, empty)
header_taken_back = into_vec-header_from two empty two-IsOwned

abbrev flags : RustVec Bool
flags = record { address = 4; items = true ∷ false ∷ []; capacity = 3 }

flags-IsOwned : IsOwned flags empty
flags-IsOwned = ((λ e. omega (arith, e)), omega arith, λ p. refl)

vec_decode-vec_encode_example :
    let (self, given) = header_from flags empty in
    (c : Header) × (es : List (Unit {0})) × (hc' : Heap CBool) × (vec_encode bool_conv self given
        empty
      ≡ some (c, es, empty, hc'))
    × ((store : List (Unit {0}))
        → (w' : RustVec Bool) × (ds : List (Unit {0})) × (ht'' : Heap Bool) × (hc'' : Heap CBool)
          × (let (self', given') = header_from w' ht'' in
              vec_decode bool_conv c store empty hc' ≡ some (some self', ds, given', hc''))
          × (w'.items ≡ true ∷ false ∷ [])
          × (w'.capacity ≡ 3)
          × (hc''.raw ≡ (λ a. none)))
vec_decode-vec_encode_example =
    vec_decode-vec_encode bool_conv bool-IsConv flags empty empty empty flags-IsOwned empty-IsHeap
      empty-IsHeap

-- The second byte is no `bool`.
abbrev bytes : RustVec CBool
bytes = record { address = 5; items = c_true ∷ (record { byte = 7 }) ∷ []; capacity = 2 }

bytes-IsOwned : IsOwned bytes empty
bytes-IsOwned = ((λ e. omega (arith, e)), omega arith, λ p. refl)

vec_decode_frees_example :
    let (c, given) = header_from bytes empty in
    ((o : Option Header) × (ds : List (Unit {0})) × (ht' : Heap Bool) × (vec_decode bool_conv c []
          empty given
        ≡ some (o, ds, ht', empty))
      × (is_some o ≡ all bool_conv.is_valid bytes.items))
    × ((o : Option Header) × (ht' : Heap Bool) × (vec_decode_stable bool_conv c empty given
          ≡ some (o, ht', empty))
        × (is_some o ≡ all bool_conv.is_valid bytes.items))
vec_decode_frees_example = vec_decode_frees bool_conv bool-IsConv bytes [] empty empty bytes-IsOwned

abbrev text : RustVec ℕ
text = record { address = 6; items = 104 ∷ 105 ∷ []; capacity = 2 }

text-IsOwned : IsOwned text empty
text-IsOwned = ((λ e. omega (arith, e)), omega arith, λ p. refl)

-- Strings of bytes below 128, as a stand-in for UTF-8.
string_decode-string_encode_example :
    (let (c, given) = string_encode (λ s. s) some 6 (104 ∷ 105 ∷ []) 2 empty in
      string_decode (λ s. s) some c given ≡ some (some (104 ∷ 105 ∷ []), empty))
    × (let (c, given) = header_from two empty in
        string_decode (λ s. s) some c given ≡ some (some (7 ∷ 8 ∷ []), empty))
string_decode-string_encode_example =
    string_decode-string_encode (λ s. s) some (λ s. refl) 6 2 (104 ∷ 105 ∷ []) two empty
      text-IsOwned two-IsOwned

abbrev one_flag : Box Bool
one_flag = record { address = 4; value = true }

box_decode-box_encode_example :
    let (c, _, given) = box_encode bool_conv one_flag tt empty in
    (b' : Box Bool) × (d : Unit {0}) × (ht' : Heap Bool) × (hc' : Heap CBool) × (box_decode
        bool_conv c tt empty given
      ≡ some (some b', d, ht', hc'))
    × (b'.value ≡ true)
    × (hc'.raw ≡ (λ a. none))
box_decode-box_encode_example =
    box_decode-box_encode bool_conv bool-IsConv one_flag tt tt empty empty empty-IsHeap

abbrev bad_box : Box CBool
bad_box = record { address = 4; value = record { byte = 7 } }

bad_box-IsOwned : IsOwned (as_vec bad_box) empty
bad_box-IsOwned = ((λ e. omega (arith, e)), omega arith, λ p. refl)

box_decode_stable_leaks_example :
    let (c, given) = from_box bad_box empty in
    (bool_conv.is_valid bad_box.value ≡ true
      → (b' : Box Bool) × (box_decode_stable bool_conv c given ≡ some (some b', empty)))
    × (bool_conv.is_valid bad_box.value ≡ false
        → (box_decode_stable bool_conv c given ≡ some (none, given))
          × (is_some (given.raw bad_box.address) ≡ true))
box_decode_stable_leaks_example =
    box_decode_stable_leaks bool_conv bool-IsConv bad_box empty bad_box-IsOwned
