-- ===== src/Derive/Tokens.antt =====
-- The token trees of a macro's input, which the derive crate (derive/src) reads: the variants of
-- `proc_macro2::TokenTree` without their spans. A character is its code.
use Prim.Native.String.{String}
use co.Prelude.{ℕ, suc, ◌<◌, List, [], ◌∷◌, ◌++◌, arith, ◌≡◌, ap, refl}
use Prim.Native.Nat.{max}

-- `proc_macro2::Delimiter`; `nothing` is `Delimiter::None`.
pub data Delimiter : Type 0 where
  parenthesis brace bracket nothing : Delimiter

mutual
  -- `proc_macro2::TokenTree`.
  pub data TokenTree : Type 0 where
    group : Delimiter → TokenStream → TokenTree
    ident : String → TokenTree
    punct : ℕ → TokenTree
    literal : String → TokenTree

  -- `proc_macro2::TokenStream`.
  pub data TokenStream : Type 0 where
    end : TokenStream
    then : TokenTree → TokenStream → TokenStream

-- `into_iter().collect()`.
unfoldable pub collect : TokenStream → List TokenTree
collect end = []
collect (then token rest) = token ∷ collect rest

-- `TokenStream::from_iter`.
unfoldable pub stream : List TokenTree → TokenStream
stream [] = end
stream (token ∷ tokens) = then token (stream tokens)

unfoldable mutual
  -- How deep the groups of a token are nested.
  pub depth_tree : TokenTree → ℕ
  depth_tree (group delimiter tokens) = suc (depth_stream tokens)
  depth_tree (ident name) = 0
  depth_tree (punct ch) = 0
  depth_tree (literal text) = 0

  pub depth_stream : TokenStream → ℕ
  depth_stream end = 0
  depth_stream (then token rest) = max (depth_tree token) (depth_stream rest)

unfoldable pub depth : List TokenTree → ℕ
unfolding depth_tree depth_stream
depth [] = 0
depth (token ∷ tokens) = max (depth_tree token) (depth tokens)

pub depth-collect : (tokens : TokenStream) → depth (collect tokens) ≡ depth_stream tokens
unfolding depth collect depth_stream
depth-collect end = refl
depth-collect (then token rest) = ap (max (depth_tree token)) (depth-collect rest)

pub depth-append :
    (xs ys : List TokenTree) (n : ℕ) → depth xs < n → depth ys < n → depth (xs ++ ys) < n
unfolding depth
depth-append [] ys n h k = k
depth-append (x ∷ xs) ys n h k = omega (arith, depth-append xs ys n (omega arith) k)
