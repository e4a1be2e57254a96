-- ===== src/Small/Files.antt =====
-- hellofile.c, fakeafile.c and devmemmadness.c.
use generic_tests.Common.{String, [], ◌∷◌, if◌then◌else◌}
use generic_tests.Common.Int.{ℤ, pos, minus_one, eqb_ℤ}
use generic_tests.Sys.{
  nat, int, str, Prog, ret, exit, emit, ask, say, skip, ◌>>◌, print, printf, perror, setbuf, sys,
  close,
}
use generic_tests.Call64.{field}

-- `perror(message); …; exit(EXIT_FAILURE);`
abbrev pub fail_with : String → Prog (Unit {0}) → Prog (Unit {0})
fail_with message cleaning = emit (perror message) (cleaning >> exit (pos 1))

abbrev pub new_filename : String
new_filename = "/tmp/renamed_tempfile.txt"

-- `create_temp_file` of hellofile.c, from `open("/tmp", O_DIRECTORY)` on.
unfoldable pub use_openat : Prog (Unit {0})
use_openat = ask (sys "open" (str "/tmp" ∷ str "O_DIRECTORY" ∷ [])) (λ d.
    let dirfd = d.result in
    if eqb_ℤ dirfd minus_one
    then fail_with "open directory" skip
    else ask (sys "openat" (int dirfd ∷ str "testfile.txt" ∷ str "O_CREAT | O_WRONLY" ∷ [])) (λ f.
      if eqb_ℤ f.result minus_one
      then fail_with "openat" (say (close dirfd))
      else emit (sys "write" (int f.result ∷ str "Written to /tmp/testfile.txt\n" ∷ nat 28 ∷ [])) (
          emit (close f.result) (
            ask (sys "unlinkat" (int dirfd ∷ str "testfile.txt" ∷ nat 0 ∷ [])) (λ u.
              if eqb_ℤ u.result minus_one
              then fail_with "unlinkat" (say (close dirfd))
              else say (close dirfd))))))

-- From `rename` on; the stream is that of the temporary file.
unfoldable pub after_rename : Prog (Unit {0})
after_rename = emit (sys "fprintf" (str "file" ∷ str "world\n" ∷ [])) (
    emit (sys "fflush" (str "file" ∷ [])) (
      emit (sys "fclose" (str "file" ∷ [])) (
        ask (sys "unlink" (str new_filename ∷ [])) (λ u.
          if eqb_ℤ u.result (pos 0)
          then (print "Temporary file created, modified, renamed, and deleted successfully.\n" []
              >> use_openat)
          else fail_with "unlink failed" skip))))

unfoldable pub create_temp_file : Prog (Unit {0})
create_temp_file = ask (sys "mkstemp" (str "/tmp/tempfileXXXXXX" ∷ [])) (λ f.
    if eqb_ℤ f.result minus_one
    then fail_with "mkstemp failed" skip
    else ask (sys "fdopen" (int f.result ∷ str "w+" ∷ [])) (λ s.
      if eqb_ℤ s.result (pos 0)
      then fail_with "fdopen failed" (say (close f.result))
      else emit (sys "fprintf" (str "file" ∷ str "hello\n" ∷ [])) (
          emit (sys "fflush" (str "file" ∷ [])) (
            ask (sys "rename" (str "temp_filename" ∷ str new_filename ∷ [])) (λ r.
              if eqb_ℤ r.result (pos 0)
              then after_rename
              else fail_with "rename failed" (say (sys "fclose" (str "file" ∷ []))))))))

unfoldable pub hellofile_main : Prog ℤ
hellofile_main = create_temp_file >> ret (pos 0)

-- What fakeafile.c and devmemmadness.c say of an `open`.
abbrev pub opened_or_not : String → String → ℤ → Prog (Unit {0})
opened_or_not failed good fd =
    if eqb_ℤ fd minus_one
    then emit (sys "fprintf" (str "stderr" ∷ str failed ∷ [])) (say (perror "open"))
    else print good (int fd ∷ [])

-- fakeafile.c goes on with the file whether it was opened or not.
unfoldable pub fake_file : ℤ → Prog ℤ
fake_file fd = ask (sys "read" (int fd ∷ nat 0x100 ∷ [])) (λ r.
    (if eqb_ℤ r.result (pos 0x100)
      then skip
      else print "read of fakefile failed only got %d bytes\n" (int r.result ∷ []))
    >> emit (sys "lseek" (int fd ∷ nat 0x80 ∷ str "SEEK_SET" ∷ [])) (
        ask (sys "write" (int fd ∷ str "Test string" ∷ nat 12 ∷ [])) (λ w.
          (if eqb_ℤ w.result (pos 12)
            then skip
            else print "write of fakefile failed only wrote %d bytes\n" (int w.result ∷ []))
          >> emit (close fd) (ret (pos 0)))))

unfoldable pub fakeafile_main : Prog ℤ
fakeafile_main = emit (sys "setbuf" (str "stderr" ∷ [])) (
    emit setbuf (
      ask (sys "mmap" (nat 0x1000 ∷ [])) (λ m.
        emit (printf "Got a mmap region at %p\n" (int m.result ∷ [])) (
          emit (sys "set" (str "region[0]" ∷ nat 0x12345678 ∷ [])) (
            ask (sys "open" (str "/qemu/synfiles/fromguest" ∷ str "O_WRONLY|O_CREAT|O_TRUNC" ∷ []))
              (λ g.
                opened_or_not "open of fromguest failed\n" "open of fromguest at fd %d\n" g.result
                >> emit (close g.result) (
                    ask (sys "open" (str "/FAKEME/fakefile" ∷ str "O_RDWR" ∷ [])) (λ f.
                      opened_or_not "open of FAKEME failed\n" "open of /FAKEME/fakefile at fd %d\n"
                        f.result
                      >> fake_file f.result))))))))

-- devmemmadness.c; `MAP_FAILED` is -1.
unfoldable pub devmem_main : Prog ℤ
devmem_main = ask (sys "open" (str "/dev/mem" ∷ str "O_RDWR" ∷ [])) (λ f.
    opened_or_not "open of /dev/mem failed\n" "open of /dev/mem at fd %d\n" f.result
    >> ask (sys "mmap" (nat 0x1000 ∷ int f.result ∷ nat 0x60000000 ∷ [])) (λ m.
      if eqb_ℤ m.result minus_one
      then emit (sys "fprintf" (str "stderr" ∷ str "mmap of /dev/mem failed\n" ∷ [])) (ret (pos 0))
      else emit (printf "mmap of /dev/mem at 0x%p\n" (int m.result ∷ [])) (
          ask (sys "get" (str "mmio_region[0]" ∷ [])) (λ v.
            emit (sys "set" (str "mmio_region[0]" ∷ nat 0x12345678 ∷ [])) (
              ask (sys "get" (str "mmio_region[0]" ∷ [])) (λ w.
                print "Read as %lx, set to %lx, then read %lx\n"
                  (nat (field 0 v.bytes) ∷ nat 0x12345678 ∷ nat (field 0 w.bytes) ∷ [])
                >> ret (pos 0)))))))
