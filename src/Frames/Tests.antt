-- ===== src/Frames/Tests.antt =====
-- The page frame allocator at a table of four pages: page 0 reserved, page 2 in use.
use osvirt_project.Base.{◌≡◌, refl, Bool, true, false, [], ◌∷◌, arith, ok, ◌⊎◌}
use osvirt_project.Frames.{
  PageInfo, Frames, Flag, inuse, reserved, take_pages, drop_pages, request_page, alloc_pages,
}
use osvirt_project.Frames.Range.{Took, Refused, take_pages-Moved}
use osvirt_project.Frames.Account.{
  IsAccounted, Op, alloc_many, free_many, request, exec_all, exec_all-IsAccounted,
}
use osvirt_project.Frames.Request.{Requested, request_page_lowest}

abbrev page : Bool → Bool → PageInfo
page u r = record { inuse = u; reserved = r }

abbrev table : Frames
table = record {
  info = page false true ∷ page false false ∷ page true false ∷ page false false ∷ [];
  free_memory = 8192;
  used_memory = 8192;
}

abbrev table' : Frames
table' = record {
  info = page false true ∷ page true false ∷ page true false ∷ page false false ∷ [];
  free_memory = 4096;
  used_memory = 12288;
}

-- Pages 1 and 2: the second is in use, and the first is released again.
alloc_rolls_back : alloc_pages 4096 2 table ≡ ok (1, table)
unfolding alloc_pages osvirt_project.Frames.take_pages osvirt_project.Frames.take_from
    osvirt_project.Frames.take_page osvirt_project.Frames.drop_pages osvirt_project.Frames.drop_from
    osvirt_project.Frames.drop_page
alloc_rolls_back = refl

take_pages-Moved_example :
    Took inuse 1 2 table (take_pages inuse 4096 2 table)
    ⊎ Refused inuse 1 2 table (take_pages inuse 4096 2 table)
take_pages-Moved_example =
    take_pages-Moved inuse 4096 2 table (omega arith) (omega arith) (omega arith)

table-IsAccounted : IsAccounted 16384 table
unfolding osvirt_project.Frames.Account.count_set
table-IsAccounted = record { used = refl; sum = refl; word = omega arith }

calls_run : exec_all (alloc_many 4096 2 ∷ request ∷ []) table ≡ ok table'
unfolding exec_all osvirt_project.Frames.Account.exec request_page alloc_pages
    osvirt_project.Frames.alloc_page osvirt_project.Frames.first_free
    osvirt_project.Frames.take_pages osvirt_project.Frames.take_from osvirt_project.Frames.take_page
    osvirt_project.Frames.drop_pages osvirt_project.Frames.drop_from osvirt_project.Frames.drop_page
calls_run = refl

exec_all-IsAccounted_example : IsAccounted 16384 table'
exec_all-IsAccounted_example =
    exec_all-IsAccounted 16384 (alloc_many 4096 2 ∷ request ∷ []) table calls_run table-IsAccounted

request_page_lowest_example : Requested table (request_page table)
request_page_lowest_example = request_page_lowest table (omega arith)
