-- ===== src/Paths/Folders.antt =====
-- App.tsx: the folders that `getParentPath`, `getRelativePath` and `joinPath` lead to, on absolute
-- paths whose names hold no separator.
use wormhole.Texts.{strip_prefix, glue, is_empty, remove_first}
use wormhole.Texts.Laws.{append-eq-glue, strip_prefix-glue}
use wormhole.Paths.{
  path_parts, has_drive, join_with, pop, text_length, get_parent_path, get_relative_path, join_path,
}
use wormhole.Paths.Segments.{
  IsSegment, nonempty-ne, glue_nil, slashed, folder_path, filter_names, path_parts-slashed,
  path_parts-glue, path_parts-folder_path, slashed-append, join_with-slash, has_drive-folder_path,
  text_length-le, text_length-pop,
}
use wormhole.Common.{
  ◌≤◌, String, ◌≡◌, refl, sym, ap, ◌∙◌, Bool, true, false, some, arith, leb, ltb, List, [], ◌∷◌,
  ◌++◌, if◌then◌else◌, All, All-append, length-append, any, length,
}

pop_snoc : (q : List String) (w : String) → pop (q ++ w ∷ []) ≡ q
pop_snoc [] w = refl
pop_snoc (x ∷ []) w = refl
pop_snoc (x ∷ y ∷ q) w = ap (λ t. x ∷ t) (pop_snoc (y ∷ q) w)

get_parent_path_lem :
    (p : List String) (root : String)
    → All IsSegment p
    → get_parent_path (folder_path p) root ≡ (
        if leb (length p) 1
        then root
        else if ltb (text_length (folder_path (pop p))) (text_length root)
        then root
        else folder_path (pop p))
unfolding get_parent_path
get_parent_path_lem p root h =
    rw (path_parts-folder_path p h, has_drive-folder_path p, join_with-slash (pop p)) refl

-- The three answers of `getParentPath`: the root twice, or the parent.
parent_of_tests :
    (a b : Bool) (root parent : String)
    → a ≡ false
    → b ≡ false
    → (if a then root else if b then root else parent) ≡ parent
parent_of_tests a b root parent ha hb = rw (ha, hb) refl

root_of_test :
    (a b : Bool) (root parent : String)
    → b ≡ true
    → (if a then root else if b then root else parent) ≡ root
root_of_test true b root parent hb = refl
root_of_test false b root parent hb = rw hb refl

climbs :
    (q : List String) (w : String) (root : String)
    → All IsSegment (q ++ w ∷ [])
    → text_length root ≤ text_length (folder_path q)
    → (q ≡ [] → root ≡ "/")
    → get_parent_path (folder_path (q ++ w ∷ [])) root ≡ folder_path q
climbs [] w root h le top = get_parent_path_lem (w ∷ []) root h ∙ top refl
climbs (x ∷ q) w root h le top =
    let shorter : ltb (text_length (folder_path (x ∷ q))) (text_length root) ≡ false =
      ground (arith, le) in
    let deep : leb (length (x ∷ q ++ w ∷ [])) 1 ≡ false =
      ground (arith, length-append q (w ∷ [])) in
    get_parent_path_lem (x ∷ q ++ w ∷ []) root h
    ∙ parent_of_tests _ _ root _ deep (
        ap (λ p. ltb (text_length (folder_path p)) (text_length root)) (pop_snoc (x ∷ q) w)
        ∙ shorter)
    ∙ ap folder_path (pop_snoc (x ∷ q) w)

root_of_append : (r rest : List String) → r ++ rest ≡ [] → folder_path r ≡ "/"
root_of_append [] rest e = refl
root_of_append (x ∷ r) rest e = cc

stays :
    (r : List String)
    → All IsSegment r
    → get_parent_path (folder_path r) (folder_path r) ≡ folder_path r
stays [] h = get_parent_path_lem [] "/" h
stays (x ∷ []) h = get_parent_path_lem (x ∷ []) (folder_path (x ∷ [])) h
stays (x ∷ y ∷ r) h =
    let shorter : ltb (text_length (folder_path (pop (x ∷ y ∷ r))))
          (text_length (folder_path (x ∷ y ∷ r)))
        ≡ true =
      ground (arith, text_length-pop x y r) in
    get_parent_path_lem (x ∷ y ∷ r) (folder_path (x ∷ y ∷ r)) h
    ∙ root_of_test _ _ (folder_path (x ∷ y ∷ r)) _ shorter

-- Below the root `getParentPath` gives the folder that a folder lies in, and at the root the root.
pub get_parent_path-folder_path :
    (r rest : List String) (w : String)
    → All IsSegment r
    → All IsSegment rest
    → IsSegment w
    → (get_parent_path (folder_path ((r ++ rest) ++ w ∷ [])) (folder_path r)
        ≡ folder_path (r ++ rest))
      × (get_parent_path (folder_path r) (folder_path r) ≡ folder_path r)
get_parent_path-folder_path r rest w h k l = (
  climbs (r ++ rest) w (folder_path r)
      (All-append IsSegment (r ++ rest) (w ∷ []) (All-append IsSegment r rest h k) (l, tt))
      (text_length-le r rest) (root_of_append r rest),
  stays r h,
)

remove_first-prefix :
    (s p behind : String)
    → is_empty s ≡ false
    → strip_prefix s p ≡ some behind
    → remove_first s p ≡ behind
remove_first-prefix String.[] p behind e h = cc
remove_first-prefix (String.◌∷◌ c s) p behind e h = rw (h, remove_first) refl

pub get_relative_path-folder_path :
    (r rest : List String)
    → All IsSegment rest
    → get_relative_path (folder_path (r ++ rest)) (folder_path r) ≡ rest
unfolding get_relative_path
get_relative_path-folder_path [] [] h = refl
get_relative_path-folder_path [] (v ∷ vs) h = path_parts-glue v vs h.0 h.1
get_relative_path-folder_path (w ∷ ws) rest h =
    ap path_parts (
      remove_first-prefix (slashed ((w ∷ ws) ++ rest)) (folder_path (w ∷ ws)) (slashed rest) refl (
        ap (λ t. strip_prefix t (slashed (w ∷ ws))) (slashed-append (w ∷ ws) rest)
        ∙ strip_prefix-glue (slashed (w ∷ ws)) (slashed rest)))
    ∙ path_parts-slashed rest h

join_with-root :
    (w : String) (ws ps : List String)
    → join_with "/" (folder_path (w ∷ ws) ∷ ps) ≡ folder_path ((w ∷ ws) ++ ps)
join_with-root w ws [] = sym (glue_nil (slashed (w ∷ ws))) ∙ sym (slashed-append (w ∷ ws) [])
join_with-root w ws (p ∷ ps) =
    append-eq-glue (slashed (w ∷ ws)) _
    ∙ ap (glue (slashed (w ∷ ws))) (join_with-slash (p ∷ ps))
    ∙ sym (slashed-append (w ∷ ws) (p ∷ ps))

-- The path that a breadcrumb opens is that of the folder it names: the names of the current folder
-- below the root are found, and joining the root and any first of them gives their folder. The root
-- is not `/` itself, and no name looks like a drive.
pub join_path-get_relative_path :
    (w : String) (ws ps qs : List String)
    → All IsSegment (w ∷ ws)
    → All IsSegment ps
    → All IsSegment qs
    → any has_drive ps ≡ false
    → (get_relative_path (folder_path ((w ∷ ws) ++ (ps ++ qs))) (folder_path (w ∷ ws)) ≡ ps ++ qs)
      × (join_path (folder_path (w ∷ ws) ∷ ps) ≡ folder_path ((w ∷ ws) ++ ps))
unfolding join_path
join_path-get_relative_path w ws ps qs h k l plain = (
  get_relative_path-folder_path (w ∷ ws) (ps ++ qs) (All-append IsSegment ps qs k l),
  rw
      (
        has_drive-folder_path (w ∷ ws),
        plain,
        nonempty-ne (folder_path (w ∷ ws)) refl,
        filter_names ps k,
      )
      (join_with-root w ws ps),
)
