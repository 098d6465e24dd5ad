-- ===== src/Files/Serving.antt =====
-- What a download returns of a file that `create_file_secret` has written.
