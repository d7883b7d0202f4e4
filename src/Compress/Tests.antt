-- ===== src/Compress/Tests.antt =====
-- A PDF that only the second pass makes small enough, and an EPUB with one picture.
use biblichor.Prelude.{◌≡◌, refl, true, false, none, some, [], ◌∷◌, map, ◌+◌, if◌then◌else◌}
use biblichor.Prelude.Text.{codes}
use biblichor.Compress.{
  exited, Entry, ImageTool, Tools, compress_pdf, compress_epub, repack, recompress, shrink,
  try_compress,
}
use biblichor.Compress.Fits.{IsFitting, sized, try_compress_fits}
use biblichor.Compress.Repack.{without_blob, total_bytes, repack_keeps}

abbrev halving : ImageTool
halving = record { is_installed = true; run = λ blob. some (0, 7 ∷ []) }

abbrev cover : Entry
cover = record {
  filename = "cover.png";
  date_time = "2026-01-01";
  compress_type = 8;
  external_attr = 0;
  blob = 1 ∷ 2 ∷ 3 ∷ [];
}

abbrev tools : Tools
tools = record {
  has_ocrmypdf = true;
  ocrmypdf = λ aggressive. if aggressive then exited 0 (some 40) else exited 0 (some 70);
  jpegoptim = record { is_installed = false; run = λ blob. none };
  pngquant = halving;
  suffix = λ name. codes ".png";
  infolist = some (cover ∷ []);
  packed = λ es. some (total_bytes es);
}

second_pass : try_compress tools (codes ".pdf") 50 (sized 100 none) ≡ (some 40, sized 100 (some 40))
unfolding try_compress compress_pdf
second_pass = refl

picture : try_compress tools (codes ".epub") 50 (sized 3 none) ≡ (some 1, sized 3 (some 1))
unfolding try_compress compress_epub repack recompress shrink
picture = refl

try_compress_fits_example : IsFitting 100 50 (try_compress tools (codes ".pdf") 50 (sized 100 none))
try_compress_fits_example = try_compress_fits tools 100 50 (codes ".pdf") (sized 100 none) refl

repack_keeps_example :
    (map without_blob (repack tools (cover ∷ [])).0 ≡ map without_blob (cover ∷ []))
    × (total_bytes (cover ∷ [])
        ≡ total_bytes (repack tools (cover ∷ [])).0 + (repack tools (cover ∷ [])).1)
repack_keeps_example = repack_keeps tools (cover ∷ [])
