-- ===== src/Makegate/Lines/Feeds.antt =====
-- No logical line holds a line feed.
use vizra_search.Base.{
  ◌+◌, refl, Bool, true, false, inl, inr, List, [], ◌∷◌, Bool-cases, length, All, All-append,
  All-append_left, All-drop, All-lstrip, All-but_last, Lacks, Str, split_on, split_on-Lacks,
  is_blank,
}
use vizra_search.Makegate.Comment.Split.{Cuts-splits, strip_comment-Cuts}
use vizra_search.Makegate.Lines.{
  LogicalLine, Open, begin, absorb, continuation, tab_first, finish, stripped_as, continued,
  collect, lines_of, makefile_lines,
}

-- No text of the record has a line feed.
pub record LacksFeed (rec : LogicalLine) : Type 0 where
  pub in_segments : All (Lacks b'\n') rec.segments
  pub in_raw : Lacks b'\n' rec.raw
  pub in_code : Lacks b'\n' rec.code

record OpenLacks (o : Open) : Type 0 where
  in_segments : All (Lacks b'\n') o.segments
  in_raw : Lacks b'\n' o.raw

continuation-Lacks : (tab : Bool) (s : Str) → Lacks b'\n' s → Lacks b'\n' (continuation tab s)
unfolding continuation
continuation-Lacks true s h = elim (Bool-cases (tab_first s)) [
  | inl e ↦ rw e (All-drop _ 1 s h)
  | inr e ↦ rw e h
]
continuation-Lacks false s h = All-lstrip _ is_blank s h

absorb-Lacks : (o : Open) (nxt : Str) → OpenLacks o → Lacks b'\n' nxt → OpenLacks (absorb o nxt)
unfolding absorb
absorb-Lacks o nxt h k = record {
  in_segments = All-append _ o.segments (nxt ∷ []) h.in_segments (k, tt);
  in_raw =
      All-append _ _ _ (All-append _ _ (32 ∷ []) (All-but_last _ o.raw h.in_raw) (refl, tt))
        (continuation-Lacks o.tab nxt k);
}

stripped_as-Lacks : (tab : Bool) (raw : Str) → Lacks b'\n' raw → Lacks b'\n' (stripped_as tab raw).0
stripped_as-Lacks true raw h = h
stripped_as-Lacks false raw h =
    let (t, cut) = strip_comment-Cuts raw in All-append_left _ _ t (rw (Cuts-splits cut) at h)

finish-LacksFeed : (o : Open) → OpenLacks o → LacksFeed (finish o)
unfolding finish
finish-LacksFeed o h = record {
  in_segments = h.in_segments;
  in_raw = h.in_raw;
  in_code = stripped_as-Lacks o.tab o.raw h.in_raw;
}

collect-LacksFeed :
    (phys : List Str) (o : Open)
    → OpenLacks o
    → All (Lacks b'\n') phys
    → All LacksFeed (collect o phys)
unfolding collect
collect-LacksFeed [] o h k = (finish-LacksFeed o h, tt)
collect-LacksFeed (nxt ∷ phys) o h k = elim (Bool-cases (continued o.cur)) [
  | inl e ↦ rw (e, collect) (collect-LacksFeed phys (absorb o nxt) (absorb-Lacks o nxt h k.0) k.1)
  | inr e ↦
      rw (e, collect)
        (
          finish-LacksFeed o h,
          collect-LacksFeed phys (begin (o.first + length o.segments) nxt)
              (record { in_segments = (k.0, tt); in_raw = k.0 }) k.1,
        )
]

lines_of-LacksFeed : (phys : List Str) → All (Lacks b'\n') phys → All LacksFeed (lines_of phys)
unfolding lines_of
lines_of-LacksFeed [] h = tt
lines_of-LacksFeed (p ∷ phys) h =
    collect-LacksFeed phys (begin 1 p) (record { in_segments = (h.0, tt); in_raw = h.0 }) h.1

pub makefile_lines-LacksFeed : (text : Str) → All LacksFeed (makefile_lines text)
unfolding makefile_lines
makefile_lines-LacksFeed text = lines_of-LacksFeed (split_on b'\n' text) (split_on-Lacks b'\n' text)
