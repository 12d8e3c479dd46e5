-- ===== src/Kom/Container.antt =====
-- archs/kom/common/kcontainer.cpp and kcontainer.hpp: named bindings of objects.
-- The linked list is a list, a string the list of its characters without the final 0. The methods
-- hold `rw_lock` from their argument checks on, so a whole method is one step.
pub mod Map
pub mod References
mod Tests
use singularity.Common.{
  ℕ, zero, suc, ◌+◌, ◌-◌, Bool, true, false, not, ◌&&◌, ◌||◌, Option, none, some, ◌==◌, leb,
  if◌then◌else◌, update, List, [], ◌∷◌, length, take, get_elem?,
}
use singularity.Kom.Error.{Error, ok, invalid_type, no_memory, collision, not_found, unsupported}
use singularity.Kom.Object.{Objects, kobject_ref, kobject_unref}

pub record OnsBinding : Type 0 where
  pub name : List ℕ
  pub obj : ℕ

-- The container's bindings from `head` on, and the objects of the system.
pub record KContainer : Type 0 where
  pub bindings : List OnsBinding
  pub objects : Objects

-- `strcmp(a, b) == 0`
unfoldable pub same_name : List ℕ → List ℕ → Bool
same_name [] [] = true
same_name [] (c ∷ cs) = false
same_name (c ∷ cs) [] = false
same_name (c ∷ cs) (d ∷ ds) = c == d && same_name cs ds

-- The scan of every method: the object bound to the name.
unfoldable pub find : List OnsBinding → List ℕ → Option ℕ
find [] name = none
find (b ∷ bs) name = if same_name b.name name then some b.obj else find bs name

-- The list without the first binding of the name.
unfoldable pub remove : List OnsBinding → List ℕ → List OnsBinding
remove [] name = []
remove (b ∷ bs) name = if same_name b.name name then bs else b ∷ remove bs name

-- `allocated` says that `kmalloc` succeeds.
unfoldable pub bind : Bool → KContainer → Option (List ℕ) → Option ℕ → Error × KContainer
bind allocated k none obj = (invalid_type, k)
bind allocated k (some name) none = (invalid_type, k)
bind allocated k (some name) (some obj) =
    let b : OnsBinding = record { name = take 63 name; obj = obj } in
    if leb 64 (length name) then (no_memory, k) else elim (find k.bindings name) [
      | some _ ↦ (collision, k)
      | none ↦
          if not allocated
          then (no_memory, k)
          else (ok, record { bindings = b ∷ k.bindings; objects = kobject_ref k.objects obj })
    ]

-- `none` is the panic of `kobject_unref`.
unfoldable pub unbind : KContainer → Option (List ℕ) → Option (Error × KContainer)
unbind k none = some (invalid_type, k)
unbind k (some name) = elim (find k.bindings name) [
  | none ↦ some (not_found, k)
  | some obj ↦ elim (kobject_unref k.objects obj) [
    | none ↦ none
    | some objects ↦ some (ok, record { bindings = remove k.bindings name; objects = objects })
  ]
]

unfoldable pub lookup : KContainer → Option (List ℕ) → Option ℕ × KContainer
lookup k none = (none, k)
lookup k (some name) = elim (find k.bindings name) [
  | none ↦ (none, k)
  | some obj ↦ (some obj, record k { objects = kobject_ref k.objects obj })
]

-- The name and the object whose type is reported. Bindings are made with an object that is not null.
unfoldable pub enumerate : KContainer → ℕ → Option (List ℕ × ℕ)
enumerate k index = elim (get_elem? k.bindings index) [
  | none ↦ none
  | some b ↦ some (take 63 b.name, b.obj)
]

-- The objects after `new KContainer()` at the address `obj`.
abbrev pub with_new : Objects → ℕ → Objects
with_new s obj = record {
  ref_count = update s.ref_count obj 1;
  deleted = update s.deleted obj false;
}

-- `is_container` says that the type asked for is `CONTAINER`; `new_c` is null when `new` fails.
unfoldable pub create_child :
    Bool → KContainer → Option (List ℕ) → Bool → Option ℕ → Option (Error × KContainer)
create_child allocated k name false new_c = some (unsupported, k)
create_child allocated k name true none = some (bind allocated k name none)
create_child allocated k name true (some new_c) =
    let (res, k') =
      bind allocated (record k { objects = with_new k.objects new_c }) name (some new_c) in
    elim (kobject_unref k'.objects new_c) [
      | none ↦ none
      | some objects ↦ some (res, record k' { objects = objects })
    ]

-- `~KContainer`: the objects after all bindings are gone.
unfoldable pub destroy : List OnsBinding → Objects → Option Objects
destroy [] s = some s
destroy (b ∷ bs) s = elim (kobject_unref s b.obj) [ none ↦ none | some s' ↦ destroy bs s' ]
