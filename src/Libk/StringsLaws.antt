-- ===== src/Libk/StringsLaws.antt =====
-- `strlen` of lib/libk/src/string.c reads back the length of what `sprintf` wrote.
