-- ===== src/Kom/Names.antt =====
-- archs/kom/common/ons.cpp and ons.hpp: the object name space, a tree of containers below a root. A
-- string is the list of its characters without the final 0. An operation is one step here; in the
-- source each container's lock is taken on its own.
pub mod Path
pub mod Walk
pub mod Pieces
pub mod Binding
pub mod Found
pub mod Listing
mod Tests
use singularity.Common.{
  ℕ, zero, suc, ◌+◌, ◌-◌, Bool, true, false, not, ◌&&◌, ◌||◌, Option, none, some, ◌==◌, ltb, leb,
  if◌then◌else◌, update, List, [], ◌∷◌, ◌++◌, map, length, take,
}
use singularity.Kom.Error.{Error, ok}
use singularity.Kom.Object.{Objects, kobject_ref, kobject_unref}
use singularity.Kom.Container
use singularity.Kom.Container.{OnsBinding, KContainer, lookup, bind, unbind}

-- `/`, `\` and `:`
abbrev pub slash : ℕ
slash = 47

abbrev pub backslash : ℕ
backslash = 92

abbrev pub colon : ℕ
colon = 58

abbrev pub is_lower : ℕ → Bool
is_lower c = leb 97 c && leb c 122

abbrev pub is_letter : ℕ → Bool
is_letter c = (leb 65 c && leb c 90) || is_lower c

-- What follows the drive and its separator: `&in[3]` or `&in[2]`.
abbrev pub after_drive : List ℕ → List ℕ
after_drive [] = []
after_drive (c ∷ rest) = if c == backslash || c == slash then rest else c ∷ rest

-- `strncat(out, rest, 255 - strlen(out))`
abbrev pub append_255 : List ℕ → List ℕ → List ℕ
append_255 out rest = out ++ take (255 - length out) rest

-- `/volumes/D/`
abbrev pub volume : ℕ → List ℕ
volume drive = 47 ∷ 118 ∷ 111 ∷ 108 ∷ 117 ∷ 109 ∷ 101 ∷ 115 ∷ 47 ∷ drive ∷ 47 ∷ []

-- The first part of `convert_nt_path`: drive C is the root, another drive a volume.
unfoldable pub without_drive : List ℕ → List ℕ
without_drive (c ∷ d ∷ rest) =
    let drive = if is_lower c then c - 32 else c in
    let out = if drive == 67 then slash ∷ [] else volume drive in
    if is_letter c && d == colon then append_255 out (after_drive rest) else take 255 (c ∷ d ∷ rest)
without_drive short = take 255 short

abbrev pub to_slash : ℕ → ℕ
to_slash c = if c == backslash then slash else c

-- The loop that drops a slash before a slash.
unfoldable pub squeeze : List ℕ → List ℕ
squeeze [] = []
squeeze (c ∷ []) = c ∷ []
squeeze (c ∷ d ∷ rest) =
    let others = squeeze (d ∷ rest) in if c == slash && d == slash then others else c ∷ others

abbrev pub or_root : List ℕ → List ℕ
or_root [] = slash ∷ []
or_root (c ∷ cs) = c ∷ cs

unfoldable pub convert_nt_path : List ℕ → List ℕ
convert_nt_path path = take 255 (or_root (squeeze (map to_slash (without_drive path))))

-- The containers by address, and the objects of the system.
pub record Names : Type 0 where
  pub root : ℕ
  pub is_container : ℕ → Bool
  pub bindings : ℕ → List OnsBinding
  pub objects : Objects

abbrev pub container : Names → ℕ → KContainer
container n c = record { bindings = n.bindings c; objects = n.objects }

abbrev pub with_container : Names → ℕ → KContainer → Names
with_container n c k = record n { bindings = update n.bindings c k.bindings; objects = k.objects }

abbrev pub ref : Names → ℕ → Names
ref n obj = record n { objects = kobject_ref n.objects obj }

-- `kobject_unref`. `none` is its panic. What the destructor of a container at its last reference
-- does to the objects in it is in Kom/Container.
unfoldable pub release : Names → ℕ → Option Names
release n obj = elim (kobject_unref n.objects obj) [
  | none ↦ none
  | some objects ↦ some (record n { objects = objects })
]

-- The pieces of a path between its slashes. The loop of `ons_resolve` takes them off one by one.
unfoldable pub pieces : List ℕ → List (List ℕ)
pieces [] = [] ∷ []
pieces (c ∷ cs) =
    let rest = pieces cs in
    if c == slash
    then [] ∷ rest
    else elim rest [ [] ↦ (c ∷ []) ∷ [] | piece ∷ others ↦ (c ∷ piece) ∷ others ]

-- The loop of `ons_resolve` from the container `current`, which holds a reference. After the last piece
-- the object is returned; a path that ends in a slash gives the container.
unfoldable pub walk : List (List ℕ) → Names → ℕ → Option (Option ℕ × Names)
walk [] n current = some (some current, n)
walk ([] ∷ rest) n current = walk rest n current
walk ((c ∷ cs) ∷ rest) n current =
    let (found, k) = lookup (container n current) (some (c ∷ cs)) in
    elim (release (record n { objects = k.objects }) current) [
      | none ↦ none
      | some n' ↦ elim found [
        | none ↦ some (none, n')
        | some next ↦ elim rest [
          | [] ↦ some (some next, n')
          | _ ∷ _ ↦
              if n'.is_container next
              then walk rest n' next
              else elim (release n' next) [ none ↦ none | some n'' ↦ some (none, n'') ]
        ]
      ]
    ]

-- `none` is a panic; the object is null when there is none at the path.
unfoldable pub ons_resolve : Names → Option (List ℕ) → Option (Option ℕ × Names)
ons_resolve n none = some (none, n)
ons_resolve n (some path) = elim (convert_nt_path path) [
  | [] ↦ some (none, n)
  | c ∷ rest ↦ if c == slash then walk (pieces rest) (ref n n.root) n.root else some (none, n)
]

abbrev pub ons_ok : ℕ
ons_ok = 0

abbrev pub ons_err_invalid_arg : ℕ
ons_err_invalid_arg = 1

abbrev pub ons_err_not_found : ℕ
ons_err_not_found = 2

abbrev pub ons_err_not_container : ℕ
ons_err_not_container = 3

abbrev pub ons_err_collision : ℕ
ons_err_collision = 4

-- `strrchr(path, '/')`: what is before and after the last slash.
unfoldable pub split_last : List ℕ → Option (List ℕ × List ℕ)
split_last [] = none
split_last (c ∷ cs) = elim (split_last cs) [
  | some (before, name) ↦ some (c ∷ before, name)
  | none ↦ if c == slash then some ([], cs) else none
]

-- The container that a name of `ons_bind` or `ons_unbind` is looked up in, with a reference, or the
-- error; `none` is a panic.
unfoldable pub parent_of : Names → List ℕ → Option ((Option ℕ × ℕ) × Names)
parent_of n [] = some ((some n.root, ons_ok), ref n n.root)
parent_of n (c ∷ cs) = elim (ons_resolve n (some (c ∷ cs))) [
  | none ↦ none
  | some (none, n') ↦ some ((none, ons_err_not_found), n')
  | some (some parent, n') ↦
      if n'.is_container parent
      then some ((some parent, ons_ok), n')
      else elim (release n' parent) [
        | none ↦ none
        | some n'' ↦ some ((none, ons_err_not_container), n'')
      ]
]

-- The place of a path, as `ons_bind` and `ons_unbind` take it apart; `none` for `ONS_ERR_INVALID_ARG`.
unfoldable pub place_of : List ℕ → Option (List ℕ × List ℕ)
place_of [] = none
place_of (c ∷ cs) =
    if c == slash
    then elim (split_last (c ∷ cs)) [
      | none ↦ none
      | some (before, []) ↦ none
      | some (before, d ∷ name) ↦ some (before, d ∷ name)
    ]
    else none

unfoldable pub ons_bind : Bool → Names → List ℕ → ℕ → Option (ℕ × Names)
ons_bind allocated n path obj = elim (place_of (convert_nt_path path)) [
  | none ↦ some (ons_err_invalid_arg, n)
  | some (before, name) ↦ elim (parent_of n before) [
    | none ↦ none
    | some ((none, err), n') ↦ some (err, n')
    | some ((some parent, _), n') ↦
        let (res, k) = bind allocated (container n' parent) (some name) (some obj) in
        elim (release (with_container n' parent k) parent) [
          | none ↦ none
          | some n'' ↦ some (elim res [ ok ↦ ons_ok | _ ↦ ons_err_collision ], n'')
        ]
  ]
]

unfoldable pub ons_unbind : Names → List ℕ → Option (ℕ × Names)
ons_unbind n path = elim (place_of (convert_nt_path path)) [
  | none ↦ some (ons_err_invalid_arg, n)
  | some (before, name) ↦ elim (parent_of n before) [
    | none ↦ none
    | some ((none, err), n') ↦ some (err, n')
    | some ((some parent, _), n') ↦ elim (unbind (container n' parent) (some name)) [
      | none ↦ none
      | some (res, k) ↦ elim (release (with_container n' parent k) parent) [
        | none ↦ none
        | some n'' ↦ some (elim res [ ok ↦ ons_ok | _ ↦ ons_err_not_found ], n'')
      ]
    ]
  ]
]
