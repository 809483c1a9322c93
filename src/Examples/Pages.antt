-- ===== src/Examples/Pages.antt =====
-- What a page shows, at a concrete duration.
use air_cover.Base.{ℕ, ◌+◌, ◌*◌, ◌^◌, ◌≤◌, pos, ◌<>◌, ◌≡◌, arith}
use air_cover.Presenter.{hours, format_duration}
use air_cover.Presenter.Hours.{decimal, format_duration-nearest}

-- An hour and twenty minutes.
format_duration-nearest_example :
    let f = hours 4800000000000 in
    (h : ℕ) × (format_duration (pos 4800000000000) ≡ decimal h <> " hours")
    × (2 * (h * 2 ^ f.scale) ≤ 2 * (f.mantissa * 100) + 2 ^ f.scale)
    × (2 * (f.mantissa * 100) ≤ 2 * (h * 2 ^ f.scale) + 2 ^ f.scale)
format_duration-nearest_example = format_duration-nearest 4800000000000 (omega arith)
