-- ===== src/PathOram/Stash/Weights.antt =====
-- Contents of a list of blocks with their order forgotten: the weight of a list is a sum over its
-- blocks. Two lists with the same weights for every weight function hold the same blocks as often.
use mathlib.Core.Path.{subst}
use mathlib.Core.Logic.{ite, if_pos, if_neg}
use native.Mathlib.Decide.{ℕ_discrete}
use unified_oramhub.Base.{
  ℕ, ◌+◌, ◌≤◌, ◌≡◌, refl, sym, ◌∙◌, ap, ◌≢◌, ◌⊎◌, inl, inr, List, [], ◌∷◌, ◌++◌, not, none, some,
  arith, filter, ◌==◌, if◌then◌else◌, Option-cases,
}
use unified_oramhub.Core.{Block, Bucket}
use unified_oramhub.PathOram.Buckets.{dummy_id}
use unified_oramhub.PathOram.Stash.{find_block_in_stash, remove_block_from_stash, real_blocks}

abbrev pub weigh : (Block → ℕ) → List Block → ℕ
weigh w [] = 0
weigh w (b ∷ bs) = w b + weigh w bs

abbrev pub weigh_buckets : (Block → ℕ) → List Bucket → ℕ
weigh_buckets w [] = 0
weigh_buckets w (b ∷ bs) = weigh w b.blocks + weigh_buckets w bs

-- A weight function that looks at the blocks of one identifier only.
abbrev pub Supports : ℕ → (Block → ℕ) → Type 0
Supports id w = (b : Block) → b.id ≢ id → w b ≡ 0

abbrev pub has_id : ℕ → Block → ℕ
has_id id b = if b.id == id then 1 else 0

-- How many blocks of the list have the identifier.
abbrev pub copies : ℕ → List Block → ℕ
copies id bs = weigh (has_id id) bs

pub has_id-Supports : (id : ℕ) → Supports id (has_id id)
has_id-Supports id b h = ground arith

pub weigh-append :
    (w : Block → ℕ) (xs ys : List Block) → weigh w (xs ++ ys) ≡ weigh w xs + weigh w ys
weigh-append w [] ys = omega arith
weigh-append w (x ∷ xs) ys = omega (arith, weigh-append w xs ys)

pub weigh-zero :
    (id : ℕ) (w : Block → ℕ) (xs : List Block) → Supports id w → copies id xs ≡ 0 → weigh w xs ≡ 0
weigh-zero id w [] s h = refl
weigh-zero id w (x ∷ xs) s h = ground (arith, s x, weigh-zero id w xs s)

pub weigh-real :
    (id : ℕ) (w : Block → ℕ) (xs : List Block)
    → Supports id w
    → id ≢ dummy_id
    → weigh w (filter (λ x. not (x.id == dummy_id)) xs) ≡ weigh w xs
weigh-real id w [] s h = refl
weigh-real id w (x ∷ xs) s h = ground (arith, s x, weigh-real id w xs s h)

pub weigh-real_blocks :
    (id : ℕ) (w : Block → ℕ) (bs : List Bucket)
    → Supports id w
    → id ≢ dummy_id
    → weigh w (real_blocks bs) ≡ weigh_buckets w bs
unfolding real_blocks
weigh-real_blocks id w [] s h = refl
weigh-real_blocks id w (b ∷ bs) s h = omega (
  arith,
  weigh-append w (filter (λ x. not (x.id == dummy_id)) b.blocks) (real_blocks bs),
  weigh-real id w b.blocks s h,
  weigh-real_blocks id w bs s h,
)

pub weigh-remove_ne :
    (id addr : ℕ) (w : Block → ℕ) (xs : List Block)
    → Supports id w
    → id ≢ addr
    → weigh w (remove_block_from_stash addr xs) ≡ weigh w xs
unfolding remove_block_from_stash
weigh-remove_ne id addr w [] s h = refl
weigh-remove_ne id addr w (x ∷ xs) s h = ground (arith, s x, weigh-remove_ne id addr w xs s h)

pub copies-remove_self :
    (addr : ℕ) (xs : List Block) → copies addr (remove_block_from_stash addr xs) ≡ 0
unfolding remove_block_from_stash
copies-remove_self addr [] = refl
copies-remove_self addr (x ∷ xs) = ground (arith, copies-remove_self addr xs)

Block-discrete : Discrete Block
Block-discrete = hlevel ℕ_discrete

-- The weight that counts one block exactly.
is_block : Block → Block → ℕ
is_block b c = ite (Block-discrete c b) 1 0

is_block_self : (b : Block) → is_block b b ≡ 1
unfolding is_block
is_block_self b = if_pos (Block-discrete b b) refl 1 0

is_block_cases : (b c : Block) → (c ≡ b) ⊎ (is_block b c ≡ 0)
unfolding is_block
is_block_cases b c = elim (Block-discrete c b) [ yes p ↦ inl p | no p ↦ inr (if_neg _ p 1 0) ]

is_block-Supports : (b : Block) → Supports b.id (is_block b)
is_block-Supports b c ne = elim (is_block_cases b c) [
  | inl e ↦ absurd (ne (ap (λ (x : Block). x.id) e))
  | inr z ↦ z
]

pub copies-find_none :
    (id : ℕ) (xs : List Block) → find_block_in_stash id xs ≡ none → copies id xs ≡ 0
unfolding find_block_in_stash
copies-find_none id [] h = refl
copies-find_none id (x ∷ xs) h = ground (arith, copies-find_none id xs)

pub find-none : (id : ℕ) (xs : List Block) → copies id xs ≡ 0 → find_block_in_stash id xs ≡ none
unfolding find_block_in_stash
find-none id [] h = refl
find-none id (x ∷ xs) h = ground (arith, find-none id xs)

find-some :
    (id : ℕ) (xs : List Block) (b : Block)
    → find_block_in_stash id xs ≡ some b
    → (b.id ≡ id) × (1 ≤ weigh (is_block b) xs)
unfolding find_block_in_stash
find-some id [] b h = cc
find-some id (x ∷ xs) b h = ground (arith, find-some id xs b, is_block_self b)

find_exact :
    (b : Block) (xs : List Block)
    → 1 ≤ weigh (is_block b) xs
    → copies b.id xs ≤ 1
    → find_block_in_stash b.id xs ≡ some b
unfolding find_block_in_stash
find_exact b [] h k = absurd (omega arith)
find_exact b (x ∷ xs) h k = elim (is_block_cases b x) [
  | inl e ↦ ground (arith, e)
  | inr z ↦ ground (
    arith,
    z,
    find_exact b xs (omega (arith, z)),
    weigh-zero b.id (is_block b) xs (is_block-Supports b),
  )
]

-- What a search finds depends on the contents alone, where the identifier occurs at most once.
pub find-eq_of_weights :
    (id : ℕ) (xs ys : List Block)
    → copies id xs ≤ 1
    → ((w : Block → ℕ) → Supports id w → weigh w ys ≡ weigh w xs)
    → find_block_in_stash id ys ≡ find_block_in_stash id xs
find-eq_of_weights id xs ys one same = elim (Option-cases (find_block_in_stash id xs)) [
  | inl e ↦
      find-none id ys (same (has_id id) (has_id-Supports id) ∙ copies-find_none id xs e) ∙ sym e
  | inr (b, e) ↦
      let (eid, here) = find-some id xs b e in
      let there : 1 ≤ weigh (is_block b) ys =
        omega (arith, here, same (is_block b) (rw (← eid) (is_block-Supports b))) in
      let few : copies b.id ys ≤ 1 =
        rw eid (omega (arith, one, same (has_id id) (has_id-Supports id))) in
      subst (λ j. find_block_in_stash j ys ≡ some b) eid (find_exact b ys there few) ∙ sym e
]
