-- ===== src/Filesystem/Tools/Writers.antt =====
-- The tools that change files: they call nothing on paths other than those within a root that allows
-- them, the entries of folders there, and for making them, the folders above.
