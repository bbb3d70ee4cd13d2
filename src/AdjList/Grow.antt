-- ===== src/AdjList/Grow.antt =====
-- Lists in memory: room, and what they hold.
use neo_post_graph.Common.{
  ℕ, zero, suc, ◌+◌, ◌*◌, ◌≤◌, ◌<◌, ◌≡◌, refl, sym, ap, ◌∙◌, List, [], ◌∷◌, ◌++◌, arith, leb,
  length, set, replicate, take, length-append, length-set, length-replicate, Bool-cases, inl, inr,
}
use neo_post_graph.Storage.{ok, ◌>>=◌}
use neo_post_graph.AdjList.{
  AdjListMember, AdjList, init_adj_list, append_adj_list, append_all, members,
}

take-set :
    {A : Type 0} (xs : List A) (n : ℕ) (v : A)
    → n < length xs
    → take (suc n) (set xs n v) ≡ take n xs ++ (v ∷ [])
take-set [] n v h = absurd (omega arith)
take-set (x ∷ xs) zero v h = refl
take-set (x ∷ xs) (suc n) v h = ap (λ zs. x ∷ zs) (take-set xs n v (omega arith))

take-append_short :
    {A : Type 0} (xs ys : List A) (n : ℕ) → n ≤ length xs → take n (xs ++ ys) ≡ take n xs
take-append_short xs ys zero h = refl
take-append_short [] ys (suc n) h = absurd (omega arith)
take-append_short (x ∷ xs) ys (suc n) h =
    ap (λ zs. x ∷ zs) (take-append_short xs ys n (omega arith))

append_assoc : {A : Type 0} (xs ys zs : List A) → (xs ++ ys) ++ zs ≡ xs ++ (ys ++ zs)
append_assoc [] ys zs = refl
append_assoc (x ∷ xs) ys zs = ap (λ ws. x ∷ ws) (append_assoc xs ys zs)

-- A list with room for at least one member, and with as many slots as it says.
pub record IsAdjList (l : AdjList) : Type 0 where
  pub some_room : 0 < l.maxitems
  pub within : l.nitems ≤ l.maxitems
  pub allocated : length l.slots ≡ l.maxitems

-- The most members that two times their size can be allocated for.
abbrev pub most_members : ℕ
most_members = 10324440

pub init_adj_list-IsAdjList :
    (zeroed : AdjListMember) (capacity : ℕ)
    → 0 < capacity
    → capacity ≤ most_members
    → (l : AdjList) × (init_adj_list zeroed capacity ≡ ok l) × IsAdjList l × (l.nitems ≡ 0)
unfolding init_adj_list
init_adj_list-IsAdjList zeroed capacity pos small = (
  record { nitems = 0; maxitems = capacity; slots = replicate capacity zeroed },
  ground arith,
  record { some_room = pos; within = omega arith; allocated = length-replicate capacity zeroed },
  refl,
)

-- One member more.
record Appended (l : AdjList) (m : AdjListMember) (l' : AdjList) : Type 0 where
  wf : IsAdjList l'
  count : l'.nitems ≡ l.nitems + 1
  content : members l' ≡ members l ++ (m ∷ [])

append-room :
    (fresh : AdjListMember) (l : AdjList) (m : AdjListMember)
    → IsAdjList l
    → l.nitems < l.maxitems
    → (l' : AdjList) × (append_adj_list fresh l m ≡ ok l') × Appended l m l'
unfolding append_adj_list
append-room fresh l m w lt =
    let inside : l.nitems < length l.slots = omega (arith, w.allocated) in
    (
      record l { nitems = suc l.nitems; slots = set l.slots l.nitems m },
      ground arith,
      record {
        wf = record {
          some_room = w.some_room;
          within = omega arith;
          allocated = length-set l.slots l.nitems m ∙ w.allocated;
        };
        count = omega arith;
        content = take-set l.slots l.nitems m inside;
      },
    )

append-full :
    (fresh : AdjListMember) (l : AdjList) (m : AdjListMember)
    → IsAdjList l
    → l.maxitems ≤ l.nitems
    → l.nitems < most_members
    → (l' : AdjList) × (append_adj_list fresh l m ≡ ok l') × Appended l m l'
unfolding append_adj_list
append-full fresh l m w full small =
    let more = l.slots ++ replicate l.maxitems fresh in
    let len : length more ≡ l.maxitems * 2 = omega (
      arith,
      length-append l.slots (replicate l.maxitems fresh),
      length-replicate l.maxitems fresh,
      w.allocated,
    ) in
    let inside : l.nitems < length more = omega (arith, w.within, w.some_room) in
    (
      record { nitems = suc l.nitems; maxitems = l.maxitems * 2; slots = set more l.nitems m },
      ground (arith, w.within, w.some_room),
      record {
        wf = record {
          some_room = omega (arith, w.some_room);
          within = omega (arith, w.within, w.some_room);
          allocated = length-set more l.nitems m ∙ len;
        };
        count = omega arith;
        content =
            take-set more l.nitems m inside
            ∙ ap (λ xs. xs ++ (m ∷ []))
                (take-append_short l.slots (replicate l.maxitems fresh) l.nitems
                  (omega (arith, w.within, w.allocated)));
      },
    )

append-Appended :
    (fresh : AdjListMember) (l : AdjList) (m : AdjListMember)
    → IsAdjList l
    → l.nitems < most_members
    → (l' : AdjList) × (append_adj_list fresh l m ≡ ok l') × Appended l m l'
append-Appended fresh l m w small = elim (Bool-cases (leb l.maxitems l.nitems)) [
  | inl full ↦ append-full fresh l m w (ground arith) small
  | inr room ↦ append-room fresh l m w (ground arith)
]

append-nil : {A : Type 0} (xs : List A) → xs ++ [] ≡ xs
append-nil [] = refl
append-nil (x ∷ xs) = ap (λ ys. x ∷ ys) (append-nil xs)

-- A loop that appends to a well-formed list returns, keeps the list well formed, and adds the
-- members in their order behind those that it held, whether it had to grow or not, up to the number
-- of members that the allocator allows.
pub append_all-IsAdjList :
    (fresh : AdjListMember) (l : AdjList) (ms : List AdjListMember)
    → IsAdjList l
    → l.nitems + length ms ≤ most_members
    → (l' : AdjList) × (append_all fresh l ms ≡ ok l')
      × IsAdjList l'
      × (l'.nitems ≡ l.nitems + length ms)
      × (members l' ≡ members l ++ ms)
unfolding append_all
append_all-IsAdjList fresh l [] w small = (l, refl, w, omega arith, sym (append-nil (members l)))
append_all-IsAdjList fresh l (m ∷ ms) w small =
    let (l', e, a) = append-Appended fresh l m w (omega arith) in
    let (l'', e', w', n, c) = append_all-IsAdjList fresh l' ms a.wf (omega (arith, a.count)) in
    (
      l'',
      ap (λ r. r >>= λ b. append_all fresh b ms) e ∙ e',
      w',
      omega (arith, a.count),
      c ∙ (ap (λ xs. xs ++ ms) a.content ∙ append_assoc (members l) (m ∷ []) ms),
    )
