-- ===== src/Paging/Map.antt =====
-- What the kernel and its programs can reach through the tables.
use my_linux_os.Common.{
  ℕ, zero, suc, ◌+◌, ◌*◌, ◌/◌, ◌%◌, ◌^◌, ◌<◌, ◌≡◌, refl, sym, ap, ◌∙◌, ◌≢◌, inl, inr, Bool, true,
  false, ◌&&◌, ◌||◌, not, ltb, leb, ◌==◌, none, some, if◌then◌else◌, arith, Bool-cases,
}
use native.Mathlib.Decide.{ℕ_discrete}
use my_linux_os.Paging.{
  Paging, DirectoryEntry, TableEntry, Array, put, for_entries, init_directory_entry,
  init_table_entry, map_video, initialize_paging, frame,
}
use my_linux_os.Paging.Translate.{translate, walk_table, table_of, allowed}

pub put_self : {A : Type 0} (arr : Array A) (i : ℕ) (v : A) → put arr i v i ≡ v
unfolding put
put_self arr i v = ground arith

pub put_ne : {A : Type 0} (arr : Array A) (i j : ℕ) (v : A) → i ≢ j → put arr i v j ≡ arr j
unfolding put
put_ne arr i j v h = ground arith

one_more :
    {A : Type 0} (n i : ℕ) (body : ℕ → A → A) (arr : Array A) (j : ℕ)
    → (if leb (i + 1) j && ltb j (i + 1 + n)
        then body j (put arr i (body i (arr i)) j)
        else put arr i (body i (arr i)) j)
      ≡ (if leb i j && ltb j (i + suc n) then body j (arr j) else arr j)
unfolding put
one_more n i body arr j = elim (Bool-cases (i == j)) [
  | inl eq ↦ let same : i ≡ j = ground arith in rw same (ground arith)
  | inr ne ↦ ground arith
]

-- The loop changes each entry in its range once, and no other.
pub for_entries_lem :
    {A : Type 0} (n i : ℕ) (body : ℕ → A → A) (arr : Array A) (j : ℕ)
    → for_entries n i body arr j ≡ (if leb i j && ltb j (i + n) then body j (arr j) else arr j)
unfolding for_entries
for_entries_lem zero i body arr j = ground arith
for_entries_lem (suc n) i body arr j =
    for_entries_lem n (i + 1) body (put arr i (body i (arr i))) j ∙ one_more n i body arr j

map_video_lem :
    (t : Array TableEntry) (i : ℕ)
    → ((map_video t i).pte_present ≡ (if leb 0xb8 i && ltb i 0xbc then 1 else (t i).pte_present))
      × ((map_video t i).pte_addr ≡ (if i == 0xb8 then 0xb8 else (t i).pte_addr))
      × ((map_video t i).pte_user ≡ (t i).pte_user)
unfolding map_video put
map_video_lem t i = ground arith

module _ (p : Paging) where
  directory_entry :
      (i : ℕ)
      → i < 1024
      → (initialize_paging p).page_directory i
        ≡ init_directory_entry p.table_at i (p.page_directory i)
  unfolding initialize_paging
  directory_entry i h =
      for_entries_lem 1024 0 (init_directory_entry p.table_at) p.page_directory i ∙ ground arith

  table_entry :
      (i : ℕ)
      → i < 1024
      → let e = (initialize_paging p).page_table i in
        (e.pte_present ≡ (if leb 0xb8 i && ltb i 0xbc then 1 else 0))
        × (e.pte_addr ≡ i)
        × (e.pte_user ≡ 0)
  unfolding initialize_paging init_table_entry
  table_entry i h =
      let fields = map_video_lem (for_entries 1024 0 init_table_entry p.page_table) i in
      let start : for_entries 1024 0 init_table_entry p.page_table i
          ≡ init_table_entry i (p.page_table i) =
        for_entries_lem 1024 0 init_table_entry p.page_table i ∙ ground arith in
      (
        fields.0
            ∙ ap (λ (t : TableEntry). if leb 0xb8 i && ltb i 0xbc then 1 else t.pte_present) start,
        fields.1
            ∙ (ap (λ (t : TableEntry). if i == 0xb8 then 0xb8 else t.pte_addr) start
                ∙ ground arith),
        fields.2 ∙ ap (λ (t : TableEntry). t.pte_user) start,
      )

abbrev entry_of : Paging → ℕ → DirectoryEntry
entry_of p v = p.page_directory (v / 4194304)

-- The cases of a translation, by the fields of the directory entry.
module _ (user : Bool) (p : Paging) (v : ℕ) where
  translate_absent : (entry_of p v).pde_present ≡ 0 → translate user p v ≡ none
  unfolding translate
  translate_absent h = rw h

  translate_denied : allowed user (entry_of p v).pde_user ≡ false → translate user p v ≡ none
  unfolding translate
  translate_denied h = ground (arith, h)

  translate_large :
      (f : ℕ)
      → (entry_of p v).pde_present ≡ 1
      → allowed user (entry_of p v).pde_user ≡ true
      → (entry_of p v).pde_size ≡ 1
      → (entry_of p v).pde_addr ≡ f
      → translate user p v ≡ some (f / 1024 * 4194304 + v % 4194304)
  unfolding translate
  translate_large f a b c d = rw (a, b, c, d)

  translate_table :
      (t : Array TableEntry)
      → (entry_of p v).pde_present ≡ 1
      → allowed user (entry_of p v).pde_user ≡ true
      → (entry_of p v).pde_size ≡ 0
      → table_of p (entry_of p v).pde_addr ≡ some t
      → translate user p v ≡ walk_table user v (some t)
  unfolding translate
  translate_table t a b c d = rw (a, b, c, d)

-- `v` from `lo` up to, and without, `hi`.
abbrev pub within : ℕ → ℕ → ℕ → Bool
within lo hi v = leb lo v && ltb v hi

init_fields :
    (table i : ℕ) (e : DirectoryEntry)
    → let d = init_directory_entry table i e in
      (d.pde_present ≡ (if i == 0 || (i == 1 || i == 32) then 1 else 0))
      × (d.pde_user ≡ (if i == 32 then 1 else 0))
      × (d.pde_size ≡ (if i == 0 then 0 else 1))
      × (d.pde_addr ≡ (
          if i == 0
          then frame table
          else if i == 1
          then 0x400
          else if i == 32
          then 0x8000
          else e.pde_addr))
unfolding init_directory_entry
init_fields table i e = ground arith

-- What the tables give at first: code at the kernel's level reaches the video page and the three
-- terminal pages behind it, the kernel's own 4 MB and the program page; a program reaches the latter.
abbrev pub reachable : Bool → ℕ → Bool
reachable user v =
    within 0x8000000 0x8400000 v
    || (not user && (within 0xb8000 0xbc000 v || within 0x400000 0x800000 v))

module _ (user : Bool) (p : Paging) (aligned : p.table_at % 4096 ≡ 0) (small : p.table_at < 2 ^ 32)
    (v : ℕ) (hv : v < 2 ^ 32) where
  entry_at :
      (i : ℕ)
      → v / 4194304 ≡ i
      → entry_of (initialize_paging p) v ≡ init_directory_entry p.table_at i (p.page_directory i)
  entry_at i e = ap (initialize_paging p).page_directory e ∙ directory_entry p i (omega arith)

  first_table :
      (f : ℕ)
      → f ≡ p.table_at / 4096
      → table_of (initialize_paging p) f ≡ some (initialize_paging p).page_table
  unfolding initialize_paging
  first_table f e = rw e (ground arith)

  walk_first :
      v / 4194304 ≡ 0
      → walk_table false v (some (initialize_paging p).page_table)
        ≡ (if within 0xb8000 0xbc000 v then some v else none)
  unfolding walk_table
  walk_first e =
      let T = table_entry p (v / 4096 % 1024) (omega arith) in rw (T.0, T.1) (ground arith)

  small_frame : p.table_at % 2 ^ 32 ≡ p.table_at
  small_frame = omega arith

  -- An entry for 4 MB at index `i` gives the virtual address itself.
  at_large :
      (i f : ℕ)
      → v / 4194304 ≡ i
      → f / 1024 ≡ i
      → let d = init_directory_entry p.table_at i (p.page_directory i) in
        d.pde_present ≡ 1
        → d.pde_size ≡ 1
        → d.pde_addr ≡ f
        → translate user (initialize_paging p) v
          ≡ (if allowed user d.pde_user then some v else none)
  at_large i f e g present large to =
      let same : allowed user (entry_of (initialize_paging p) v).pde_user
          ≡ allowed user (init_directory_entry p.table_at i (p.page_directory i)).pde_user =
        ap (λ (d : DirectoryEntry). allowed user d.pde_user) (entry_at i e) in
      elim (Bool-cases (allowed user (entry_of (initialize_paging p) v).pde_user)) [
        | inl may ↦
            translate_large user (initialize_paging p) v f
              (ap (λ (d : DirectoryEntry). d.pde_present) (entry_at i e) ∙ present) may
              (ap (λ (d : DirectoryEntry). d.pde_size) (entry_at i e) ∙ large)
              (ap (λ (d : DirectoryEntry). d.pde_addr) (entry_at i e) ∙ to)
            ∙ rw (sym same ∙ may) (ap some (omega arith))
        | inr deny ↦ translate_denied user (initialize_paging p) v deny ∙ rw (sym same ∙ deny)
      ]

  at_table :
      v / 4194304 ≡ 0
      → translate user (initialize_paging p) v
        ≡ (if not user && within 0xb8000 0xbc000 v then some v else none)
  at_table e = elim (Bool-cases user) [
    | inl program ↦ rw program (
        translate_denied true (initialize_paging p) v (
          ap (λ (d : DirectoryEntry). allowed true d.pde_user) (entry_at 0 e)
          ∙ ap (allowed true) (init_fields p.table_at 0 (p.page_directory 0)).1))
    | inr kernel ↦ rw kernel (
        translate_table false (initialize_paging p) v (initialize_paging p).page_table
          (ap (λ (d : DirectoryEntry). d.pde_present) (entry_at 0 e)
            ∙ (init_fields p.table_at 0 (p.page_directory 0)).0)
          refl
          (ap (λ (d : DirectoryEntry). d.pde_size) (entry_at 0 e)
            ∙ (init_fields p.table_at 0 (p.page_directory 0)).2)
          (first_table (entry_of (initialize_paging p) v).pde_addr (
            ap (λ (d : DirectoryEntry). d.pde_addr) (entry_at 0 e)
            ∙ ((init_fields p.table_at 0 (p.page_directory 0)).3
                ∙ ap (λ (t : ℕ). t / 4096) small_frame)))
        ∙ walk_first e)
  ]

  at_kernel :
      v / 4194304 ≡ 1 → translate user (initialize_paging p) v ≡ (if not user then some v else none)
  at_kernel e =
      let F = init_fields p.table_at 1 (p.page_directory 1) in
      at_large 1 0x400 e refl F.0 F.2 F.3
      ∙ ap (λ (t : ℕ). if allowed user t then some v else none) F.1
      ∙ ground arith

  at_program : v / 4194304 ≡ 32 → translate user (initialize_paging p) v ≡ some v
  at_program e =
      let F = init_fields p.table_at 32 (p.page_directory 32) in
      at_large 32 0x8000 e refl F.0 F.2 F.3
      ∙ ap (λ (t : ℕ). if allowed user t then some v else none) F.1
      ∙ ground arith

  at_other :
      (i : ℕ)
      → v / 4194304 ≡ i
      → i ≢ 0
      → i ≢ 1
      → i ≢ 32
      → translate user (initialize_paging p) v ≡ none
  at_other i e a b c = translate_absent user (initialize_paging p) v (
      ap (λ (d : DirectoryEntry). d.pde_present) (entry_at i e)
      ∙ ((init_fields p.table_at i (p.page_directory i)).0 ∙ ground arith))

-- With the tables set up, and the page table at a page boundary, every address in reach translates to
-- itself and every other one is a fault. The kernel reaches the video page, the three terminal
-- pages behind it, its own 4 MB and the program page at 128 MB; a program reaches the program page.
pub initialize_paging_lem :
    (user : Bool) (p : Paging) (v : ℕ)
    → p.table_at % 4096 ≡ 0
    → p.table_at < 2 ^ 32
    → v < 2 ^ 32
    → translate user (initialize_paging p) v ≡ (if reachable user v then some v else none)
initialize_paging_lem user p v aligned small hv = elim (ℕ_discrete (v / 4194304) 0) [
  | yes e ↦ at_table user p aligned small v hv e ∙ ground arith
  | no a ↦ elim (ℕ_discrete (v / 4194304) 1) [
    | yes e ↦ at_kernel user p aligned small v hv e ∙ ground arith
    | no b ↦ elim (ℕ_discrete (v / 4194304) 32) [
      | yes e ↦ at_program user p aligned small v hv e ∙ ground arith
      | no c ↦ at_other user p aligned small v hv (v / 4194304) refl a b c ∙ ground arith
    ]
  ]
]
